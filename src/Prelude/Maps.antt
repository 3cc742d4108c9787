-- ===== src/Prelude/Maps.antt =====
-- Maps with numbers as keys, as association lists that hold a key at most once.
use Prim.Native.Nat.{ℕ, ◌+◌, ◌≤◌, ◌<◌}
use mathlib.Core.Path.{◌≡◌, refl, ap}
use mathlib.Core.Logic.{◌≢◌, inl, inr}
use mathlib.Core.List.{List, [], ◌∷◌}
use mathlib.Core.Option.{Option, none, some}
use mathlib.Core.Bool.{Bool}
use native.Mathlib.Omega.{arith}
use redsuite.Prelude.Tests.{eqb, eqb_iff, if◌then◌else◌, Bool-cases}
use redsuite.Prelude.Lists.{length}

abbrev pub Table {ℓ} : Type ℓ → Type ℓ
Table V = List (ℕ × V)

module _ {ℓ} {V : Type ℓ} where
  unfoldable pub get : ℕ → Table V → Option V
  get k [] = none
  get k ((j, v) ∷ m) = if eqb j k then some v else get k m

  unfoldable pub remove : ℕ → Table V → Table V
  remove k [] = []
  remove k ((j, v) ∷ m) = let rest = remove k m in if eqb j k then rest else (j, v) ∷ rest

  unfoldable pub insert : ℕ → V → Table V → Table V
  unfolding remove
  insert k v m = (k, v) ∷ remove k m

  -- Every key is below the bound.
  abbrev pub Below : ℕ → Table V → Type 0
  Below bound [] = Unit
  Below bound ((j, v) ∷ m) = (j < bound) × Below bound m

  -- No key stands twice.
  abbrev pub Unique : Table V → Type ℓ
  Unique [] = Unit
  Unique ((j, v) ∷ m) = (get j m ≡ none) × Unique m

  -- How many of the values pass the test.
  unfoldable pub tally : (V → Bool) → Table V → ℕ
  tally p [] = 0
  tally p ((j, v) ∷ m) = (if p v then 1 else 0) + tally p m

  pub get-remove :
      (j k : ℕ) (m : Table V) → get j (remove k m) ≡ (if eqb k j then none else get j m)
  unfolding get remove
  get-remove j k [] = ground arith
  get-remove j k ((i, v) ∷ m) = ground (arith, get-remove j k m)

  pub get-insert :
      (j k : ℕ) (v : V) (m : Table V) → get j (insert k v m) ≡ (if eqb k j then some v else get j m)
  unfolding get insert
  get-insert j k v m = ground (arith, get-remove j k m)

  pub Below-weaken : (a b : ℕ) (m : Table V) → a ≤ b → Below a m → Below b m
  Below-weaken a b [] h u = tt
  Below-weaken a b ((j, v) ∷ m) h u = (omega arith, Below-weaken a b m h u.1)

  pub get-Below : (bound : ℕ) (m : Table V) → Below bound m → get bound m ≡ none
  unfolding get
  get-Below bound [] u = refl
  get-Below bound ((j, v) ∷ m) u = ground (arith, get-Below bound m u.1)

  pub remove-Below : (bound k : ℕ) (m : Table V) → Below bound m → Below bound (remove k m)
  unfolding remove
  remove-Below bound k [] u = tt
  remove-Below bound k ((j, v) ∷ m) u = elim (Bool-cases (eqb j k)) [
    | inl same ↦ rw (same, if◌then◌else◌) (remove-Below bound k m u.1)
    | inr other ↦ rw (other, if◌then◌else◌) (u.0, remove-Below bound k m u.1)
  ]

  pub remove-Unique : (k : ℕ) (m : Table V) → Unique m → Unique (remove k m)
  unfolding remove
  remove-Unique k [] u = tt
  remove-Unique k ((j, v) ∷ m) u = elim (Bool-cases (eqb j k)) [
    | inl same ↦ rw (same, if◌then◌else◌) (remove-Unique k m u.1)
    | inr other ↦
        rw (other, if◌then◌else◌) (ground (arith, get-remove j k m, u.0), remove-Unique k m u.1)
  ]

  pub insert-Unique : (k : ℕ) (v : V) (m : Table V) → Unique m → Unique (insert k v m)
  unfolding insert
  insert-Unique k v m u = (ground (arith, get-remove k k m), remove-Unique k m u)

  pub remove_absent : (k : ℕ) (m : Table V) → get k m ≡ none → remove k m ≡ m
  unfolding get remove
  remove_absent k [] e = refl
  remove_absent k ((j, v) ∷ m) e = elim (Bool-cases (eqb j k)) [
    | inl same ↦ absurd (ground arith)
    | inr other ↦ rw (other, if◌then◌else◌) (ap (◌∷◌ (j, v)) (remove_absent k m (ground arith)))
  ]

  pub tally-remove :
      (p : V → Bool) (k : ℕ) (v : V) (m : Table V)
      → Unique m
      → get k m ≡ some v
      → tally p m ≡ (if p v then 1 else 0) + tally p (remove k m)
  unfolding get remove tally
  tally-remove p k v [] u e = absurd (cc)
  tally-remove p k v ((j, w) ∷ m) u e = elim (Bool-cases (eqb j k)) [
    | inl same ↦ let at : j ≡ k = (eqb_iff j k).0 same in ground (arith, remove_absent k m, u.0)
    | inr other ↦ ground (arith, tally-remove p k v m u.1 (ground arith))
  ]

  pub tally-remove-le : (p : V → Bool) (k : ℕ) (m : Table V) → tally p (remove k m) ≤ tally p m
  unfolding remove tally
  tally-remove-le p k [] = omega arith
  tally-remove-le p k ((j, w) ∷ m) = ground (arith, tally-remove-le p k m)

  pub length-remove-le : (k : ℕ) (m : Table V) → length (remove k m) ≤ length m
  unfolding remove
  length-remove-le k [] = omega arith
  length-remove-le k ((j, w) ∷ m) = ground (arith, length-remove-le k m)

  pub get-remove_other : (i j : ℕ) (m : Table V) → i ≢ j → get j (remove i m) ≡ get j m
  get-remove_other i j m apart = ground (arith, get-remove j i m, eqb_iff i j)

  pub get-insert_other : (i j : ℕ) (v : V) (m : Table V) → i ≢ j → get j (insert i v m) ≡ get j m
  get-insert_other i j v m apart = ground (arith, get-insert j i v m, eqb_iff i j)
