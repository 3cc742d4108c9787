-- ===== src/Stats/Quantile.antt =====
-- core/src/stats.rs: `finalize`.
use redsuite.Prelude.{
  ℤ, as_i32, ap, ℕ, zero, suc, ◌-◌, ◌/◌, ◌<◌, min, ◌≡◌, refl, Bool, true, false, List, [], ◌∷◌,
  arith, All, length, get_elem?, some, eqb,
}
use redsuite.Stats.{
  Floats, Rng, Stats, ObservationsStats, insert, sort, element, p95_index, summary, finalize,
  cast_some,
}
use redsuite.Stats.Valid.{Within, IsValid}

insert-Within :
    (lo hi x : ℕ) (xs : List ℕ)
    → Within lo hi x
    → All (Within lo hi) xs
    → All (Within lo hi) (insert x xs)
unfolding insert
insert-Within lo hi x [] h k = (h, tt)
insert-Within lo hi x (y ∷ ys) h k = ground (arith, insert-Within lo hi x ys h k.1)

sort-Within : (lo hi : ℕ) (xs : List ℕ) → All (Within lo hi) xs → All (Within lo hi) (sort xs)
unfolding sort
sort-Within lo hi [] h = tt
sort-Within lo hi (x ∷ xs) h = insert-Within lo hi x (sort xs) h.0 (sort-Within lo hi xs h.1)

length-insert : (x : ℕ) (xs : List ℕ) → length (insert x xs) ≡ suc (length xs)
unfolding insert
length-insert x [] = refl
length-insert x (y ∷ ys) = ground (arith, length-insert x ys)

length-sort : (xs : List ℕ) → length (sort xs) ≡ length xs
unfolding sort
length-sort [] = refl
length-sort (x ∷ xs) = omega (arith, length-insert x (sort xs), length-sort xs)

get_elem?-Within :
    (lo hi : ℕ) (xs : List ℕ) (i : ℕ)
    → All (Within lo hi) xs
    → i < length xs
    → (v : ℕ) × (get_elem? xs i ≡ some v) × Within lo hi v
get_elem?-Within lo hi [] i h k = absurd (omega arith)
get_elem?-Within lo hi (x ∷ xs) zero h k = (x, refl, h.0)
get_elem?-Within lo hi (x ∷ xs) (suc i) h k = get_elem?-Within lo hi xs i h.1 (omega arith)

-- An `i32` that is cast from a value between bounds.
abbrev pub IsCast : ℕ → ℕ → ℤ → Type 0
IsCast lo hi z = (v : ℕ) × (z ≡ as_i32 v) × Within lo hi v

element-IsCast :
    (f : Floats) (r : Rng f) (lo hi : ℕ) (xs : List ℕ) (i : ℕ) (avg : ℤ)
    → All (Within lo hi) xs
    → i < length xs
    → (z : ℤ) × (element f r xs i avg ≡ some z) × IsCast lo hi z
unfolding element
element-IsCast f r lo hi [] i avg h k = absurd (omega arith)
element-IsCast f r lo hi (x ∷ xs) i avg h k =
    let (v, at, inside) = get_elem?-Within lo hi (x ∷ xs) i h k in
    (as_i32 v, ap cast_some at, (v, refl, inside))

module _ (f : Floats) (r : Rng f) where
  p95_index-lt :
      (inverted : Bool) (len : ℕ)
      → 0 < len
      → (i : ℕ) × (p95_index f r inverted len ≡ some i) × (i < len)
  unfolding p95_index
  p95_index-lt true len h = (_, refl, omega arith)
  p95_index-lt false len h = (min (f.ceil_95 len - 1) (len - 1), ground arith, ground arith)

  -- A valid summary with a count and a reservoir size above zero is finalized without a panic. It keeps the count and
  -- the bounds, and its median and its percentile are the casts to `i32` of values between the bounds.
  pub finalize-Within :
      (s : Stats f r) (inverted : Bool)
      → IsValid s
      → 0 < s.count
      → 0 < s.reservoir_size
      → (o : ObservationsStats) × (finalize f r s inverted ≡ some o)
        × (o.count ≡ s.count)
        × (o.min ≡ s.least)
        × (o.max ≡ s.greatest)
        × IsCast o.min o.max o.median
        × IsCast o.min o.max o.quantile95
  unfolding finalize
  finalize-Within s inverted v seen room =
      let sorted = sort s.reservoir in
      let many : 0 < length sorted = omega (arith, length-sort s.reservoir, v.full) in
      let inside = sort-Within s.least s.greatest s.reservoir v.inside in
      let (median, at_median, median_in) =
        element-IsCast f r s.least s.greatest sorted (length sorted / 2) (f.to_i32 s.mean) inside
          (omega arith) in
      let (index, at_index, index_in) = p95_index-lt inverted (length sorted) many in
      let (quantile, at_quantile, quantile_in) =
        element-IsCast f r s.least s.greatest sorted index (f.to_i32 s.mean) inside index_in in
      let nonzero : eqb s.count 0 ≡ false = ground arith in
      (
        summary f r s median quantile,
        rw (nonzero, at_median, at_index, at_quantile, finalize) refl,
        refl,
        refl,
        refl,
        median_in,
        quantile_in,
      )
