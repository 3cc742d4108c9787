-- ===== src/Netfault/Gating.antt =====
-- core/src/netfault/mod.rs: one pass of `gate`.
use redsuite.Prelude.{
  ◌≡◌, refl, ◌↔◌, ◌⊎◌, inl, inr, true, false, not, ◌&&◌, List, [], ◌∷◌, Option, none, some, arith,
  All, Bool-cases, String,
}
use redsuite.Netfault.{
  Operation, Interception, Rule, Effect, observe, stall, reject_with, State, Counters, decided,
  stalled, release, reject, Passed, is_observe, matches, deciding, take_trap, apply_rule,
  apply_trap, judge, gate,
}

-- The rule lets the operation pass: it only observes, or it does not select the operation.
abbrev pub LetsPass : Operation → Rule → Type 0
LetsPass o r = (is_observe r.effect ≡ true) ⊎ (matches r.selector o ≡ false)

-- The trap lets the operation pass: it has been taken, or it does not select the operation.
abbrev pub Ignores : Operation → Interception → Type 0
Ignores o t = (t.armed ≡ false) ⊎ (matches t.selector o ≡ false)

deciding-none : (o : Operation) (rs : List Rule) → All (LetsPass o) rs → deciding o rs ≡ none
unfolding deciding
deciding-none o [] h = refl
deciding-none o (r ∷ rs) h = ground (arith, deciding-none o rs h.1)

deciding-none_inv : (o : Operation) (rs : List Rule) → deciding o rs ≡ none → All (LetsPass o) rs
unfolding deciding
deciding-none_inv o [] e = tt
deciding-none_inv o (r ∷ rs) e =
    elim (Bool-cases (not (is_observe r.effect) && matches r.selector o)) [
      | inl hit ↦ absurd (ground arith)
      | inr miss ↦ (ground arith, deciding-none_inv o rs (rw miss at e))
    ]

pub deciding-effect :
    (o : Operation) (rs : List Rule) (r : Rule)
    → deciding o rs ≡ some r
    → is_observe r.effect ≡ false
unfolding deciding
deciding-effect o [] r e = cc
deciding-effect o (x ∷ rs) r e = ground (arith, deciding-effect o rs r)

take_trap-none :
    (o : Operation) (ts : List Interception) → All (Ignores o) ts → take_trap o ts ≡ none
unfolding take_trap
take_trap-none o [] h = refl
take_trap-none o (t ∷ ts) h = ground (arith, take_trap-none o ts h.1)

take_trap-none_inv :
    (o : Operation) (ts : List Interception) → take_trap o ts ≡ none → All (Ignores o) ts
unfolding take_trap
take_trap-none_inv o [] e = tt
take_trap-none_inv o (t ∷ ts) e = elim (Bool-cases (t.armed && matches t.selector o)) [
  | inl hit ↦ absurd (ground arith)
  | inr miss ↦ (ground arith, take_trap-none_inv o ts (ground arith))
]

-- What a deciding rule leaves and answers, by its effect.
abbrev pub RuleFirst : State → Rule → Passed → Type 0
RuleFirst s r p =
    (p.state.traps ≡ s.traps)
    × (p.state.sequence ≡ s.sequence)
    × (p.sent ≡ none)
    × ((p.gate ≡ stalled r.hits)
        ⊎ ((message : String) × (r.effect ≡ reject_with message)
            × (p.gate ≡ decided (reject message))))

apply_rule-RuleFirst :
    (s : State) (c : Counters) (o : Operation) (r : Rule) (e : Effect)
    → r.effect ≡ e
    → is_observe e ≡ false
    → RuleFirst s r (apply_rule s c o r e)
unfolding apply_rule
apply_rule-RuleFirst s c o r observe same h = absurd (cc)
apply_rule-RuleFirst s c o r stall same h = (refl, refl, refl, inl refl)
apply_rule-RuleFirst s c o r (reject_with message) same h =
    (refl, refl, refl, inr (message, same, refl))

judge_released :
    (s : State) (c : Counters) (o : Operation) (d : Option Rule)
    → ((r : Rule) → d ≡ some r → is_observe r.effect ≡ false)
    → (judge s c o d).gate ≡ decided release
    → (d ≡ none) × (take_trap o s.traps ≡ none)
unfolding judge
judge_released s c o none h e = (refl, trap_released (take_trap o s.traps) e)
  where
    trap_released :
        (t : Option (List Interception)) → (apply_trap s c o t).gate ≡ decided release → t ≡ none
    trap_released none e = refl
    trap_released (some ts) e = cc
judge_released s c o (some r) h e =
    let (_, _, _, how) = apply_rule-RuleFirst s c o r r.effect refl (h r refl) in ground arith

-- An operation goes through at once exactly when every rule and every trap lets it pass.
pub gate_released_iff :
    (s : State) (c : Counters) (o : Operation)
    → ((gate s c o).gate ≡ decided release) ↔ (All (LetsPass o) s.rules × All (Ignores o) s.traps)
unfolding gate judge
gate_released_iff s c o = (
  λ e.
      let (no_rule, no_trap) =
        judge_released _ _ o (deciding o s.rules) (deciding-effect o s.rules) e in
      (deciding-none_inv o s.rules no_rule, take_trap-none_inv o s.traps no_trap),
  λ (rules, traps). rw (deciding-none o s.rules rules, take_trap-none o s.traps traps, gate) refl,
)

-- A rule that decides comes before every trap: no interception is taken or numbered, and the
-- operation is rejected with the rule's message or held back by the rule.
pub gate-RuleFirst :
    (s : State) (c : Counters) (o : Operation) (r : Rule)
    → deciding o s.rules ≡ some r
    → RuleFirst s r (gate s c o)
unfolding gate judge
gate-RuleFirst s c o r e =
    rw (e, gate) (apply_rule-RuleFirst _ _ o r r.effect refl (deciding-effect o s.rules r e))
