-- ===== src/Netfault/Hits.antt =====
-- core/src/netfault/mod.rs: what the hit counter of an observing rule counts.
use redsuite.Prelude.{
  ℕ, ◌+◌, ◌≤◌, ◌<◌, ◌≡◌, refl, ◌∙◌, sym, ap, subst, inl, inr, ◌≢◌, Bool, not, ◌&&◌, List, [], ◌∷◌,
  ◌++◌, Option, none, some, arith, All, All-append, Bool-cases, if◌then◌else◌, retain,
}
use redsuite.Netfault.{
  Operation, Interception, Rule, Effect, observe, stall, reject_with, State, Counters, matches,
  is_observe, record_observers, deciding, take_trap, apply_rule, apply_trap, judge, gate,
  drop_holding, intercept, add_rule, remove_rule, restore, take_unfired, scope,
}
use redsuite.Netfault.Scope.{
  System, Step, pass, finish, intercepts, adds_rule, removes_rule, restores, resets, Reach, start,
  next,
}

-- The rules have counters of their own, in the order of their making, between the two addresses.
abbrev pub Addressed : ℕ → ℕ → List Rule → Type 0
Addressed low high [] = low ≤ high
Addressed low high (r ∷ rs) = (low ≤ r.hits) × (r.hits < high) × Addressed (r.hits + 1) high rs

Addressed-low :
    (low low' high : ℕ) (rs : List Rule)
    → low' ≤ low
    → Addressed low high rs
    → Addressed low' high rs
Addressed-low low low' high [] h k = omega arith
Addressed-low low low' high (r ∷ rs) h k = (omega arith, k.1, k.2)

Addressed-snoc :
    (low high : ℕ) (rs : List Rule) (sel : _) (e : Effect)
    → Addressed low high rs
    → Addressed low (high + 1) (rs ++ record { selector = sel; effect = e; hits = high } ∷ [])
Addressed-snoc low high [] sel e k = (k, omega arith, omega arith)
Addressed-snoc low high (r ∷ rs) sel e k =
    (k.0, omega arith, Addressed-snoc (r.hits + 1) high rs sel e k.2)

Addressed-retain :
    (p : Rule → Bool) (low high : ℕ) (rs : List Rule)
    → Addressed low high rs
    → Addressed low high (retain p rs)
Addressed-retain p low high [] k = k
Addressed-retain p low high (r ∷ rs) k = elim (Bool-cases (p r)) [
  | inl kept ↦ rw kept (k.0, k.1, Addressed-retain p (r.hits + 1) high rs k.2)
  | inr gone ↦ rw gone (
      Addressed-low (r.hits + 1) low high _ (omega arith)
        (Addressed-retain p (r.hits + 1) high rs k.2))
]

record IsAddressed (s : System) : Type 0 where
  addressed : Addressed 0 s.next_hits s.state.rules

judge-rules :
    (s : State) (c : Counters) (o : Operation) (d : Option Rule)
    → (judge s c o d).state.rules ≡ s.rules
unfolding judge
judge-rules s c o none = trap (take_trap o s.traps)
  where
    trap : (t : Option (List Interception)) → (apply_trap s c o t).state.rules ≡ s.rules
    trap none = refl
    trap (some ts) = refl
judge-rules s c o (some r) = rule r.effect
  where
    rule : (e : Effect) → (apply_rule s c o r e).state.rules ≡ s.rules
    rule observe = refl
    rule stall = refl
    rule (reject_with m) = refl

Step-IsAddressed : {s t : System} → Step s t → IsAddressed s → IsAddressed t
unfolding gate intercept add_rule remove_rule restore take_unfired
Step-IsAddressed (pass s o) v = record {
  addressed = rw (judge-rules _ _ o (deciding o s.state.rules)) v.addressed;
}
Step-IsAddressed (finish s before g after t at dropped) v = record {
  addressed = rw (dropped_rules s.state t dropped) v.addressed;
}
  where
    dropped_rules : (x y : State) → drop_holding x ≡ some y → y.rules ≡ x.rules
    dropped_rules x y e = unfold drop_holding in ground arith
Step-IsAddressed (intercepts s sel) v = record { addressed = v.addressed }
Step-IsAddressed (adds_rule s sel e) v = record {
  addressed = Addressed-snoc 0 s.next_hits s.state.rules sel e v.addressed;
}
Step-IsAddressed (removes_rule s a) v = record {
  addressed = Addressed-retain _ 0 s.next_hits s.state.rules v.addressed;
}
Step-IsAddressed (restores s) v = record { addressed = omega arith }
Step-IsAddressed (resets s idle) v = record { addressed = v.addressed }

Reach-IsAddressed : {s : System} → Reach s → IsAddressed s
unfolding scope
Reach-IsAddressed start = record { addressed = omega arith }
Reach-IsAddressed (next r st) = Step-IsAddressed st (Reach-IsAddressed r)

record_observers-append :
    (o : Operation) (xs ys : List Rule) (c : Counters)
    → record_observers o (xs ++ ys) c ≡ record_observers o ys (record_observers o xs c)
unfolding record_observers
record_observers-append o [] ys c = refl
record_observers-append o (x ∷ xs) ys c = record_observers-append o xs ys _

record_observers-others :
    (o : Operation) (rs : List Rule) (c : Counters) (a : ℕ)
    → All (λ r. r.hits ≢ a) rs
    → record_observers o rs c a ≡ c a
unfolding record_observers
record_observers-others o [] c a h = refl
record_observers-others o (r ∷ rs) c a h = record_observers-others o rs _ a h.1 ∙ ground arith

above :
    (low high a : ℕ) (rs : List Rule) → a < low → Addressed low high rs → All (λ r. r.hits ≢ a) rs
above low high a [] h k = tt
above low high a (r ∷ rs) h k = (omega arith, above (r.hits + 1) high a rs (omega arith) k.2)

-- In a list with such addresses, the rules before and after `r` have other counters.
others_before :
    (low high : ℕ) (before : List Rule) (r : Rule) (after : List Rule)
    → Addressed low high (before ++ r ∷ after)
    → (low ≤ r.hits) × All (λ x. x.hits ≢ r.hits) before × All (λ x. x.hits ≢ r.hits) after
others_before low high [] r after k =
    (k.0, tt, above (r.hits + 1) high r.hits after (omega arith) k.2)
others_before low high (x ∷ before) r after k =
    let (low_r, b, a) = others_before (x.hits + 1) high before r after k.2 in
    (omega arith, (omega arith, b), a)

counted :
    (o : Operation) (r : Rule) (after : List Rule) (c : Counters)
    → r.effect ≡ observe
    → All (λ x. x.hits ≢ r.hits) after
    → record_observers o (r ∷ after) c r.hits ≡ c r.hits + (if matches r.selector o then 1 else 0)
unfolding record_observers
counted o r after c watching ha = record_observers-others o after _ r.hits ha ∙ ground arith

abbrev decides : Operation → Rule → Bool
decides o r = not (is_observe r.effect) && matches r.selector o

deciding-All :
    (P : Rule → Type 0) (o : Operation) (rs : List Rule) (d : Rule)
    → All P rs
    → deciding o rs ≡ some d
    → P d
unfolding deciding
deciding-All P o [] d h found = absurd (cc)
deciding-All P o (x ∷ rs) d h found = elim (Bool-cases (decides o x)) [
  | inl hit ↦ let same : x ≡ d = ground arith in subst P same h.0
  | inr miss ↦ deciding-All P o rs d h.1 (rw miss at found)
]

deciding-skip :
    (o : Operation) (before : List Rule) (r : Rule) (after : List Rule)
    → r.effect ≡ observe
    → deciding o (before ++ r ∷ after) ≡ deciding o (before ++ after)
unfolding deciding
deciding-skip o [] r after e = ground arith
deciding-skip o (x ∷ before) r after e = ground (arith, deciding-skip o before r after e)

judge-counters :
    (s : State) (c : Counters) (o : Operation) (d : Option Rule) (a : ℕ)
    → ((r : Rule) → d ≡ some r → r.hits ≢ a)
    → (judge s c o d).counters a ≡ c a
unfolding judge
judge-counters s c o none a h = trap (take_trap o s.traps)
  where
    trap : (t : Option (List Interception)) → (apply_trap s c o t).counters a ≡ c a
    trap none = refl
    trap (some ts) = refl
judge-counters s c o (some r) a h = rule r.effect
  where
    rule : (e : Effect) → (apply_rule s c o r e).counters a ≡ c a
    rule observe = refl
    rule stall = ground (arith, h r refl)
    rule (reject_with m) = ground (arith, h r refl)

-- In a scope that has been used in any way, one pass of the gate raises the counter of an observing
-- rule of the scope by one if the rule's selector selects the operation, and by nothing otherwise.
pub gate-observer :
    {s : System} (o : Operation) (before : List Rule) (r : Rule) (after : List Rule)
    → Reach s
    → s.state.rules ≡ before ++ r ∷ after
    → r.effect ≡ observe
    → (gate s.state s.counters o).counters r.hits
      ≡ s.counters r.hits + (if matches r.selector o then 1 else 0)
unfolding gate
gate-observer {s} o before r after reach at watching =
    let (_, hb, ha) =
      others_before 0 s.next_hits before r after
        (subst (Addressed 0 s.next_hits) at (Reach-IsAddressed reach).addressed) in
    let apart = λ (d : Rule) (found : deciding o s.state.rules ≡ some d).
      deciding-All (λ x. x.hits ≢ r.hits) o (before ++ after) d (All-append _ before after hb ha)
        (sym (deciding-skip o before r after watching) ∙ ap (deciding o) (sym at) ∙ found) in
    judge-counters _ (record_observers o s.state.rules s.counters) o (deciding o s.state.rules)
      r.hits apart
    ∙ ap (λ rs. record_observers o rs s.counters r.hits) at
    ∙ ap (λ (c : Counters). c r.hits) (record_observers-append o before (r ∷ after) s.counters)
    ∙ counted o r after (record_observers o before s.counters) watching ha
    ∙ ap (λ (n : ℕ). n + (if matches r.selector o then 1 else 0))
        (record_observers-others o before s.counters r.hits hb)
