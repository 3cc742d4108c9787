-- ===== src/Stats/Valid.antt =====
-- core/src/stats.rs: the well-formed summaries, with `push` and `merge`.
use mathlib.Core.List.{Perm, Permᴰ}
use mathlib.Core.HLevel.{×_prop}
use mathlib.Core.Logic.{∥∥₁_elim}
use native.Mathlib.Decide.{dec_lt}
use native.Mathlib.Bridge.{le_prop}
use redsuite.Prelude.{
  ℕ, zero, suc, ◌+◌, ◌≤◌, min, ◌≡◌, refl, List, [], ◌∷◌, ◌++◌, arith, All, All-append, All-weaken,
  length, length-append, set, length-set, Bool-cases, tests, lt→ltb, leb, eqb, inl, inr,
}
use redsuite.Stats.{
  Floats, Rng, StreamingStats, Stats, with_reservoir_size, keep, push, merge_reservoir, merge,
  merge_moments,
}
use redsuite.Stats.Reservoir.{draw_all-Samples}

-- A value between the bounds.
abbrev pub Within : ℕ → ℕ → ℕ → Type 0
Within lo hi v = (lo ≤ v) × (v ≤ hi)

AllWithin-prop : (lo hi : ℕ) (xs : List ℕ) → IsProp (All (Within lo hi) xs)
AllWithin-prop lo hi [] = hlevel
AllWithin-prop lo hi (x ∷ xs) = ×_prop (×_prop le_prop le_prop) (AllWithin-prop lo hi xs)

AllWithin-Permᴰ :
    (lo hi : ℕ) {xs ys : List ℕ} → Permᴰ xs ys → All (Within lo hi) ys → All (Within lo hi) xs
AllWithin-Permᴰ lo hi Permᴰ.nil h = tt
AllWithin-Permᴰ lo hi (Permᴰ.cons e p) h = (ground (arith, h.0), AllWithin-Permᴰ lo hi p h.1)
AllWithin-Permᴰ lo hi (Permᴰ.swap e g) h = (ground (arith, h.1.0), (ground (arith, h.0), h.1.1))
AllWithin-Permᴰ lo hi (Permᴰ.trans p q) h = AllWithin-Permᴰ lo hi p (AllWithin-Permᴰ lo hi q h)

AllWithin-Perm :
    (lo hi : ℕ) (xs ys : List ℕ) → Perm xs ys → All (Within lo hi) ys → All (Within lo hi) xs
AllWithin-Perm lo hi xs ys p h =
    ∥∥₁_elim p (AllWithin-prop lo hi xs) (λ d. AllWithin-Permᴰ lo hi d h)

All-prefix : (lo hi : ℕ) (xs ys : List ℕ) → All (Within lo hi) (xs ++ ys) → All (Within lo hi) xs
All-prefix lo hi [] ys h = tt
All-prefix lo hi (x ∷ xs) ys h = (h.0, All-prefix lo hi xs ys h.1)

All-set :
    (lo hi : ℕ) (xs : List ℕ) (i v : ℕ)
    → All (Within lo hi) xs
    → Within lo hi v
    → All (Within lo hi) (set xs i v)
All-set lo hi [] i v h k = tt
All-set lo hi (x ∷ xs) zero v h k = (k, h.1)
All-set lo hi (x ∷ xs) (suc i) v h k = (h.0, All-set lo hi xs i v h.1 k)

pub record IsValid {F Seed : Type 0} (s : StreamingStats F Seed) : Type 0 where
  pub full : length s.reservoir ≡ min s.count s.reservoir_size
  pub inside : All (Within s.least s.greatest) s.reservoir

widen :
    (lo hi lo' hi' : ℕ) (xs : List ℕ)
    → lo' ≤ lo
    → hi ≤ hi'
    → All (Within lo hi) xs
    → All (Within lo' hi') xs
widen lo hi lo' hi' xs h k = All-weaken _ _ xs (λ v w. omega arith)

module _ (f : Floats) (r : Rng f) where
  open r use {Seed}

  pub with_reservoir_size-IsValid :
      (size : ℕ) (seed : Seed) → IsValid (with_reservoir_size f r size seed)
  unfolding with_reservoir_size
  with_reservoir_size-IsValid size seed = record { full = omega arith; inside = tt }

  -- `keep` after the count and the bounds have taken the value in.
  keep-IsValid :
      (value seen : ℕ) (s : Stats f r)
      → s.count ≡ seen + 1
      → length s.reservoir ≡ min seen s.reservoir_size
      → All (Within s.least s.greatest) s.reservoir
      → Within s.least s.greatest value
      → IsValid (keep f r value s)
  unfolding keep
  keep-IsValid value seen s counted full inside h =
      elim (dec_lt (length s.reservoir) s.reservoir_size) [
        | yes room ↦
            rw (lt→ltb _ _ room, keep)
              (record {
                full = omega (arith, length-append s.reservoir (value ∷ []));
                inside = All-append _ s.reservoir (value ∷ []) inside (h, tt);
              })
        | no filled ↦ ground (
          arith,
          length-set s.reservoir (r.below s.count s.rng).0 value,
          All-set s.least s.greatest s.reservoir (r.below s.count s.rng).0 value inside h,
        )
      ]

  -- A value pushed to a valid summary leaves it valid: the reservoir as full as the count and the size
  -- allow, and each value in it between the bounds.
  pub push-IsValid : (s : Stats f r) (value : ℕ) → IsValid s → IsValid (push f r s value)
  unfolding push
  push-IsValid s value v =
      keep-IsValid value s.count _ refl v.full
        (widen s.least s.greatest _ _ s.reservoir (omega arith) (omega arith) v.inside)
        (omega arith)

  -- The reservoirs merged, before the counts are added.
  record Merged (s : Stats f r) (other : List ℕ) (t : Stats f r) : Type 0 where
    same_count : t.count ≡ s.count
    same_size : t.reservoir_size ≡ s.reservoir_size
    filled : length t.reservoir ≡ min s.reservoir_size (length s.reservoir + length other)
    inside : All (Within t.least t.greatest) t.reservoir

  merge_reservoir-Merged :
      (s : Stats f r) (other : List ℕ) (n : ℕ)
      → All (Within s.least s.greatest) s.reservoir
      → All (Within s.least s.greatest) other
      → Merged s other (merge_reservoir f r s other n)
  unfolding merge_reservoir
  merge_reservoir-Merged s other n own_in other_in =
      elim (Bool-cases (leb (length s.reservoir + length other) s.reservoir_size)) [
        | inl room ↦
            rw (room, merge_reservoir)
              (record {
                same_count = refl;
                same_size = refl;
                filled = omega (tests, length-append s.reservoir other);
                inside = All-append _ s.reservoir other own_in other_in;
              })
        | inr tight ↦
            let (left, samples, many) =
              draw_all-Samples f r (f.div (f.of_nat s.count) (f.of_nat (length s.reservoir)))
                (f.div (f.of_nat n) (f.of_nat (length other))) s.reservoir_size s.reservoir other []
                s.rng in
            rw (tight, merge_reservoir)
              (record {
                same_count = refl;
                same_size = refl;
                filled = omega (arith, many);
                inside = All-prefix s.least s.greatest _ left (
                    AllWithin-Perm s.least s.greatest _ _ samples
                      (All-append _ s.reservoir other own_in other_in));
              })
      ]

  -- Merging two valid summaries with reservoirs of one size gives a valid summary: the reservoir is as
  -- full as the count and the size allow, and each value in it lies between the bounds.
  pub merge-IsValid :
      (s other : Stats f r)
      → s.reservoir_size ≡ other.reservoir_size
      → IsValid s
      → IsValid other
      → IsValid (merge f r s other)
  unfolding merge merge_moments
  merge-IsValid s other same v w =
      let moved = merge_moments f r s other in
      let m =
        merge_reservoir-Merged moved other.reservoir other.count
          (widen s.least s.greatest moved.least moved.greatest s.reservoir (omega arith)
            (omega arith) v.inside)
          (widen other.least other.greatest moved.least moved.greatest other.reservoir (omega arith)
            (omega arith) w.inside) in
      elim (Bool-cases (eqb other.count 0)) [
        | inl none_seen ↦ rw (none_seen, merge) v
        | inr some_seen ↦
            rw (some_seen, merge)
              (record {
                full = omega (arith, m.filled, m.same_count, m.same_size);
                inside = m.inside;
              })
      ]
