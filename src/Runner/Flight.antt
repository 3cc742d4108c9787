-- ===== src/Runner/Flight.antt =====
-- core/src/runner/mod.rs: the numbers of the jobs in flight, and the admissions that a completion allows.
use redsuite.Prelude.{
  ℕ, suc, ◌≤◌, ◌<◌, ◌≡◌, refl, inl, inr, ap, true, false, not, List, [], ◌∷◌, none, some, arith,
  if◌then◌else◌, eqb, eqb_iff, Bool-cases, contains, nat_eq, length, retain,
}
use redsuite.Runner.Driver.{Completion, iterations, until, Signal, done}

-- The jobs in flight have numbers of their own, all below the bound.
abbrev pub Descending : ℕ → List ℕ → Type 0
Descending bound [] = Unit
Descending bound (id ∷ ids) = (id < bound) × Descending id ids

abbrev pub others : ℕ → List ℕ → List ℕ
others id = retain (λ j. not (eqb j id))

Descending-weaken : (a b : ℕ) (ids : List ℕ) → a ≤ b → Descending a ids → Descending b ids
Descending-weaken a b [] h d = tt
Descending-weaken a b (id ∷ ids) h d = (omega arith, d.1)

pub others-Descending :
    (bound id : ℕ) (ids : List ℕ) → Descending bound ids → Descending bound (others id ids)
others-Descending bound id [] d = tt
others-Descending bound id (j ∷ ids) d = elim (Bool-cases (eqb j id)) [
  | inl same ↦
      rw (same, if◌then◌else◌)
        (Descending-weaken j bound _ (omega arith) (others-Descending j id ids d.1))
  | inr other ↦ rw (other, if◌then◌else◌) (d.0, others-Descending j id ids d.1)
]

-- A number that stands once is removed once.
others_absent :
    (bound id : ℕ) (ids : List ℕ) → bound ≤ id → Descending bound ids → others id ids ≡ ids
others_absent bound id [] h d = refl
others_absent bound id (j ∷ ids) h d =
    let differs : eqb j id ≡ false = ground (arith, d.0) in
    rw (differs, if◌then◌else◌) (ap (◌∷◌ j) (others_absent j id ids (omega (arith, d.0)) d.1))

pub length-others :
    (bound id : ℕ) (ids : List ℕ)
    → Descending bound ids
    → contains ids id ≡ true
    → suc (length (others id ids)) ≡ length ids
length-others bound id [] d h = absurd (cc)
length-others bound id (j ∷ ids) d h = elim (Bool-cases (eqb j id)) [
  | inl same ↦
      let at : j ≡ id = (eqb_iff j id).0 same in
      let gone = others_absent j id ids (omega arith) d.1 in
      rw (same, if◌then◌else◌) (ap suc (ap length gone))
  | inr other ↦
      let later : contains ids id ≡ true = ground arith in
      rw (other, if◌then◌else◌) (ap suc (length-others j id ids d.1 later))
]

-- The number of admissions that the completion allows.
abbrev pub WithinTotal : Completion → ℕ → Type 0
WithinTotal (iterations total deadline) admitted = admitted ≤ total
WithinTotal (until deadline) admitted = Unit

pub within-suc :
    (c : Completion) (s : Signal) (admitted : ℕ)
    → done c s admitted ≡ false
    → WithinTotal c (suc admitted)
unfolding done
within-suc (iterations total none) s admitted h = ground arith
within-suc (iterations total (some deadline)) s admitted h = ground arith
within-suc (until deadline) s admitted h = tt

pub within-zero : (c : Completion) → WithinTotal c 0
within-zero (iterations total deadline) = omega arith
within-zero (until deadline) = tt
