-- ===== src/Netfault/Ledger.antt =====
-- core/src/netfault/mod.rs: the books of a fault scope, over the interceptions requested of it and the
-- operations it holds.
use redsuite.Prelude.{
  ℕ, suc, ◌+◌, ◌-◌, ◌≤◌, ◌<◌, ◌≡◌, refl, ◌↔◌, inl, inr, ap, subst, true, ◌&&◌, List, [], ◌∷◌, ◌++◌,
  Option, none, some, arith, Bool-cases, Option-cases, length, length-append,
}
use redsuite.Netfault.{
  Operation, Interception, Rule, Effect, observe, stall, reject_with, State, Counters, Gate,
  decided, held, stalled, Passed, matches, take_trap, apply_rule, apply_trap, judge, gate, deciding,
  drop_holding, intercept, add_rule, remove_rule, armed_selectors, see, record_observers, restore,
  take_unfired, scope,
}
use redsuite.Netfault.Scope.{
  System, Step, pass, finish, intercepts, adds_rule, removes_rule, restores, resets, Reach, start,
  next, with_gate, fresh,
}

-- The interceptions awaiting a decision have pairwise different numbers, all below `bound`.
abbrev pub Numbered : ℕ → List Gate → Type 0
Numbered bound [] = Unit
Numbered bound (held n ∷ gates) = (n < bound) × Numbered n gates
Numbered bound (stalled a ∷ gates) = Numbered bound gates
Numbered bound (decided d ∷ gates) = ⊥

unfoldable pub armed : State → ℕ
armed s = length (armed_selectors s.traps)

pub record Inv (s : System) : Type 0 where
  pub balanced :
      s.state.sequence + armed s.state + length s.state.unfired + s.reported ≡ s.requested
  pub counted : s.state.holding ≡ length s.live
  pub numbered : Numbered (s.state.sequence + 1) s.live

-- Taking a trap disarms exactly one.
take_trap-armed :
    (o : Operation) (ts us : List Interception)
    → take_trap o ts ≡ some us
    → length (armed_selectors ts) ≡ length (armed_selectors us) + 1
unfolding take_trap armed_selectors
take_trap-armed o [] us e = absurd (cc)
take_trap-armed o (t ∷ ts) us e = elim (Bool-cases (t.armed && matches t.selector o)) [
  | inl hit ↦ ground arith
  | inr miss ↦ elim (Option-cases (take_trap o ts)) [
    | inl nothing ↦ absurd (ground arith)
    | inr (vs, found) ↦ ground (arith, take_trap-armed o ts vs found)
  ]
]

armed_selectors-append :
    (ts us : List Interception)
    → length (armed_selectors (ts ++ us))
      ≡ length (armed_selectors ts) + length (armed_selectors us)
unfolding armed_selectors
armed_selectors-append [] us = omega arith
armed_selectors-append (t ∷ ts) us = ground (arith, armed_selectors-append ts us)

Numbered-mono : (m n : ℕ) (gs : List Gate) → m ≤ n → Numbered m gs → Numbered n gs
Numbered-mono m n [] h k = tt
Numbered-mono m n (held i ∷ gs) h k = (omega arith, k.1)
Numbered-mono m n (stalled a ∷ gs) h k = Numbered-mono m n gs h k
Numbered-mono m n (decided d ∷ gs) h k = k

Numbered-remove :
    (bound : ℕ) (before : List Gate) (g : Gate) (after : List Gate)
    → Numbered bound (before ++ g ∷ after)
    → Numbered bound (before ++ after)
Numbered-remove bound [] (held n) after k = Numbered-mono n bound after (omega arith) k.1
Numbered-remove bound [] (stalled a) after k = k
Numbered-remove bound [] (decided d) after k = absurd k
Numbered-remove bound (held n ∷ before) g after k = (k.0, Numbered-remove n before g after k.1)
Numbered-remove bound (stalled a ∷ before) g after k = Numbered-remove bound before g after k
Numbered-remove bound (decided d ∷ before) g after k = absurd k

-- What a pass of the gate changes in the books.
record Booked (s : State) (live : List Gate) (p : Passed) : Type 0 where
  kept : p.state.sequence + armed p.state ≡ s.sequence + armed s
  unfired : p.state.unfired ≡ s.unfired
  counted : p.state.holding ≡ length (with_gate p.gate live)
  numbered : Numbered (p.state.sequence + 1) (with_gate p.gate live)

module _ (s : State) (c : Counters) (o : Operation) (live : List Gate)
    (counted : s.holding ≡ length live) (numbered : Numbered (s.sequence + 1) live) where
  apply_rule-Booked : (r : Rule) (e : Effect) → Booked s live (apply_rule s c o r e)
  unfolding apply_rule armed
  apply_rule-Booked r observe = record {
    kept = refl;
    unfired = refl;
    counted = counted;
    numbered = numbered;
  }
  apply_rule-Booked r (reject_with m) = record {
    kept = refl;
    unfired = refl;
    counted = counted;
    numbered = numbered;
  }
  apply_rule-Booked r stall = record {
    kept = refl;
    unfired = refl;
    counted = omega arith;
    numbered = numbered;
  }

  apply_trap-Booked :
      (t : Option (List Interception))
      → take_trap o s.traps ≡ t
      → Booked s live (apply_trap s c o t)
  unfolding apply_trap armed
  apply_trap-Booked none e = record {
    kept = refl;
    unfired = refl;
    counted = counted;
    numbered = numbered;
  }
  apply_trap-Booked (some ts) e = record {
    kept = omega (arith, take_trap-armed o s.traps ts e);
    unfired = refl;
    counted = omega arith;
    numbered = (omega arith, numbered);
  }

  judge-Booked : (d : Option Rule) → Booked s live (judge s c o d)
  unfolding judge
  judge-Booked none = apply_trap-Booked (take_trap o s.traps) refl
  judge-Booked (some r) = apply_rule-Booked r r.effect

drop_holding-some :
    (s t : State)
    → drop_holding s ≡ some t
    → (suc t.holding ≡ s.holding)
      × (t.sequence ≡ s.sequence)
      × (t.traps ≡ s.traps)
      × (t.unfired ≡ s.unfired)
unfolding drop_holding
drop_holding-some s t e = ground arith

-- Every step keeps the books.
Step-Inv : {s t : System} → Step s t → Inv s → Inv t
unfolding gate intercept armed_selectors add_rule remove_rule restore take_unfired armed
Step-Inv (pass s o) v =
    let b =
      judge-Booked (record (s.state) { observed = see o.stage s.state.observed })
        (record_observers o s.state.rules s.counters) o s.live v.counted v.numbered
        (deciding o s.state.rules) in
    record {
      balanced = omega (arith, b.kept, ap length b.unfired, v.balanced);
      counted = b.counted;
      numbered = b.numbered;
    }
Step-Inv (finish s before g after t at dropped) v =
    let (one_less, same_sequence, same_traps, same_unfired) = drop_holding-some s.state t dropped in
    record {
      balanced = rw (same_sequence, same_traps, same_unfired) v.balanced;
      counted = omega (
        arith,
        one_less,
        ap length at,
        length-append before (g ∷ after),
        length-append before after,
        v.counted,
      );
      numbered =
          rw same_sequence (Numbered-remove _ before g after (subst (Numbered _) at v.numbered));
    }
Step-Inv (intercepts s sel) v = record {
  balanced = omega (
    arith,
    armed_selectors-append s.state.traps (record { selector = sel; armed = true } ∷ []),
    v.balanced,
  );
  counted = v.counted;
  numbered = v.numbered;
}
Step-Inv (adds_rule s sel e) v = record {
  balanced = v.balanced;
  counted = v.counted;
  numbered = v.numbered;
}
Step-Inv (removes_rule s a) v = record {
  balanced = v.balanced;
  counted = v.counted;
  numbered = v.numbered;
}
Step-Inv (restores s) v = record {
  balanced =
      omega (arith, length-append s.state.unfired (armed_selectors s.state.traps), v.balanced);
  counted = v.counted;
  numbered = v.numbered;
}
Step-Inv (resets s idle) v = record {
  balanced = omega (arith, v.balanced);
  counted = v.counted;
  numbered = v.numbered;
}

fresh-Inv : Inv fresh
unfolding scope armed armed_selectors
fresh-Inv = record { balanced = refl; counted = refl; numbered = tt }

-- In every state that a scope can reach, the requested interceptions are those that fired, those
-- still armed and those found unfired; `holding` counts the operations that are held; and the
-- interceptions that await a decision have numbers of their own.
pub Reach-Inv : {s : System} → Reach s → Inv s
Reach-Inv start = fresh-Inv
Reach-Inv (next r st) = Step-Inv st (Reach-Inv r)

-- In every state that a scope can reach with a live gate, that gate's operation can be let go: the
-- count of held operations is above zero, and is one less afterwards.
pub drop_holding-total :
    {s : System} (before : List Gate) (g : Gate) (after : List Gate)
    → Reach s
    → s.live ≡ before ++ g ∷ after
    → (t : State) × (drop_holding s.state ≡ some t) × (suc t.holding ≡ s.state.holding)
unfolding drop_holding
drop_holding-total {s} before g after r at =
    let counted = (Reach-Inv r).counted in
    let pos : 0 < s.state.holding =
      omega (arith, ap length at, length-append before (g ∷ after), counted) in
    (record (s.state) { holding = s.state.holding - 1 }, ground arith, omega arith)

length-eq-zero : {A : Type 0} (xs : List A) → length xs ≡ 0 → xs ≡ []
length-eq-zero [] e = refl
length-eq-zero (x ∷ xs) e = absurd (omega arith)

-- In every state that a scope can reach, a reset reports no interception exactly when each one requested
-- has fired or was reported by an earlier reset.
pub take_unfired-restore :
    {s : System}
    → Reach s
    → ((take_unfired (restore s.state)).1 ≡ []) ↔ (s.requested ≡ s.state.sequence + s.reported)
unfolding take_unfired restore armed
take_unfired-restore {s} r =
    let books = (Reach-Inv r).balanced in
    let both = length-append s.state.unfired (armed_selectors s.state.traps) in
    (
      λ e. omega (arith, ap length e, both, books),
      λ e. length-eq-zero _ (omega (arith, both, books)),
    )
