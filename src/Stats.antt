-- ===== src/Stats.antt =====
-- core/src/stats.rs: streaming statistics with a bounded reservoir. The floating-point moments and
-- the random generator come from outside and are parameters. A `u32` value is a plain number, and
-- an `i32` an integer; the cast to `i32` makes the numbers from 2^31 on negative. `none` is a
-- panic, of an index out of range or, where overflow is checked, of a subtraction below zero.
pub mod Reservoir
pub mod Valid
pub mod Quantile
pub mod Samples
mod Tests
use redsuite.Prelude.{
  ℤ, pos, as_i32, add_i32, ℕ, zero, suc, ◌+◌, ◌-◌, ◌/◌, ◌^◌, ◌%◌, ◌<◌, max, min, ◌≡◌, Bool, true,
  false, List, [], ◌∷◌, ◌++◌, Option, none, some, ltb, leb, eqb, if◌then◌else◌, ◌&&◌, length, set,
  get_elem?,
}

-- `f64` arithmetic and casts, as the code uses them.
pub record Floats : Type 1 where
  pub F : Type 0
  pub of_nat : ℕ → F
  pub add : F → F → F
  pub sub : F → F → F
  pub mul : F → F → F
  pub div : F → F → F
  pub lt : F → F → Bool
  pub sqrt : F → F
  pub to_u32 : F → ℕ
  pub to_i32 : F → ℤ
  -- `(n as f64 * 0.95).ceil() as usize`
  pub ceil_95 : ℕ → ℕ

-- `StdRng`: `gen_range(0..n)` and `gen_range(0.0..x)`, with the generator's state passed on.
pub record Rng (f : Floats) : Type 1 where
  pub Seed : Type 0
  pub below : ℕ → Seed → ℕ × Seed
  pub below_real : f.F → Seed → f.F × Seed
  -- A draw from a range that is not empty lies in the range.
  pub below_lt : (n : ℕ) (s : Seed) → 0 < n → (below n s).0 < n

-- The last element of `x ∷ xs`, and the elements before it.
unfoldable pub split_last : ℕ → List ℕ → ℕ × List ℕ
split_last x [] = (x, [])
split_last x (y ∷ ys) = let (last, before) = split_last y ys in (last, x ∷ before)

-- `Vec::swap_remove`, as the element and the vector left: the last element takes the free place.
unfoldable pub swap_remove : List ℕ → ℕ → Option (ℕ × List ℕ)
swap_remove [] i = none
swap_remove (x ∷ []) zero = some (x, [])
swap_remove (x ∷ y ∷ ys) zero = let (last, before) = split_last y ys in some (x, last ∷ before)
swap_remove (x ∷ xs) (suc i) = elim (swap_remove xs i) [
  | none ↦ none
  | some (v, rest) ↦ some (v, x ∷ rest)
]

-- The element at `picked` of the own vector or of the other one, and the two vectors without it.
unfoldable pub pick {ℓ} :
    {S : Type ℓ} → S → Bool → ℕ → List ℕ → List ℕ → Option (ℕ × List ℕ × List ℕ × S)
unfolding swap_remove
pick seed true picked own other = elim (swap_remove own picked) [
  | none ↦ none
  | some (value, rest) ↦ some (value, rest, other, seed)
]
pick seed false picked own other = elim (swap_remove other picked) [
  | none ↦ none
  | some (value, rest) ↦ some (value, own, rest, seed)
]

-- `sort_unstable`
unfoldable pub insert : ℕ → List ℕ → List ℕ
insert x [] = x ∷ []
insert x (y ∷ ys) = if leb x y then x ∷ y ∷ ys else y ∷ insert x ys

unfoldable pub sort : List ℕ → List ℕ
sort [] = []
sort (x ∷ xs) = insert x (sort xs)

abbrev pub u32_max : ℕ
u32_max = 2 ^ 32 - 1

abbrev pub default_reservoir_size : ℕ
default_reservoir_size = 10_000

pub record ObservationsStats : Type 0 where
  pub count : ℕ
  pub median : ℤ
  pub min : ℕ
  pub max : ℕ
  pub avg : ℤ
  pub quantile95 : ℤ
  pub stddev : ℕ

abbrev pub default_stats : ObservationsStats
default_stats = record {
  count = 0;
  median = pos 0;
  min = 0;
  max = 0;
  avg = pos 0;
  quantile95 = pos 0;
  stddev = 0;
}

-- The sums wrap where overflow is not checked.
unfoldable pub add_rates : ObservationsStats → ObservationsStats → ObservationsStats
add_rates a b = record {
  count = (a.count + b.count) % 2 ^ 64;
  median = add_i32 a.median b.median;
  min = (a.min + b.min) % 2 ^ 32;
  max = (a.max + b.max) % 2 ^ 32;
  avg = add_i32 a.avg b.avg;
  quantile95 = add_i32 a.quantile95 b.quantile95;
  stddev = (a.stddev + b.stddev) % 2 ^ 32;
}

abbrev pub cast_some : Option ℕ → Option ℤ
cast_some none = none
cast_some (some v) = some (as_i32 v)

pub record StreamingStats (F Seed : Type 0) : Type 0 where
  pub count : ℕ
  pub mean : F
  pub m2 : F
  pub least : ℕ
  pub greatest : ℕ
  pub reservoir : List ℕ
  pub reservoir_size : ℕ
  pub rng : Seed

module _ (f : Floats) (r : Rng f) where
  open f use {F, of_nat, add, sub, mul, div, lt, sqrt, to_u32, to_i32, ceil_95}
  open r use {Seed, below, below_real}

  abbrev pub Stats : Type 0
  Stats = StreamingStats F Seed

  -- The seed stands for the entropy.
  unfoldable pub with_reservoir_size : ℕ → Seed → Stats
  with_reservoir_size size seed = record {
    count = 0;
    mean = of_nat 0;
    m2 = of_nat 0;
    least = u32_max;
    greatest = 0;
    reservoir = [];
    reservoir_size = size;
    rng = seed;
  }

  unfoldable pub new : Seed → Stats
  unfolding with_reservoir_size
  new seed = with_reservoir_size default_reservoir_size seed

  -- The reservoir's part of `push`: filled up first, then a random place or none is overwritten.
  unfoldable pub keep : ℕ → Stats → Stats
  keep value s =
      if ltb (length s.reservoir) s.reservoir_size
      then record s { reservoir = s.reservoir ++ value ∷ [] }
      else let (j, seed) = below s.count s.rng in
        if ltb j s.reservoir_size
        then record s { reservoir = set s.reservoir j value; rng = seed }
        else record s { rng = seed }

  unfoldable pub push : Stats → ℕ → Stats
  unfolding keep
  push s value =
      let count' = s.count + 1 in
      let delta = sub (of_nat value) s.mean in
      let mean' = add s.mean (div delta (of_nat count')) in
      keep value (record s {
        count = count';
        mean = mean';
        m2 = add s.m2 (mul delta (sub (of_nat value) mean'));
        least = min s.least value;
        greatest = max s.greatest value;
      })

  -- Whether the next element comes from the own reservoir.
  unfoldable pub from_own : F → F → List ℕ → List ℕ → Seed → Bool × Seed
  from_own own_weight other_weight [] other seed = (false, seed)
  from_own own_weight other_weight (x ∷ xs) [] seed = (true, seed)
  from_own own_weight other_weight (x ∷ xs) (y ∷ ys) seed =
      let own_remaining = mul (of_nat (length (x ∷ xs))) own_weight in
      let other_remaining = mul (of_nat (length (y ∷ ys))) other_weight in
      let (draw, seed') = below_real (add own_remaining other_remaining) seed in
      (lt draw own_remaining, seed')

  -- One round of the loop of `merge_reservoir`: the element drawn, the own reservoir and the other
  -- one without it, and the generator. With both empty there is none, and the loop ends.
  unfoldable pub draw : F → F → List ℕ → List ℕ → Seed → Option (ℕ × List ℕ × List ℕ × Seed)
  unfolding from_own pick
  draw own_weight other_weight own other seed =
      let (is_own, seed') = from_own own_weight other_weight own other seed in
      let (picked, seed'') = below (length (if is_own then own else other)) seed' in
      pick seed'' is_own picked own other

  -- The loop of `merge_reservoir`, with the room left in `merged` as its counter.
  unfoldable pub draw_all : F → F → ℕ → List ℕ → List ℕ → List ℕ → Seed → List ℕ × Seed
  unfolding draw
  draw_all own_weight other_weight zero own other merged seed = (merged, seed)
  draw_all own_weight other_weight (suc room) own other merged seed =
      elim (draw own_weight other_weight own other seed) [
        | none ↦ (merged, seed)
        | some (value, own', other', seed') ↦
            draw_all own_weight other_weight room own' other' (merged ++ value ∷ []) seed'
      ]

  unfoldable pub merge_reservoir : Stats → List ℕ → ℕ → Stats
  unfolding draw_all
  merge_reservoir s other other_count =
      if leb (length s.reservoir + length other) s.reservoir_size
      then record s { reservoir = s.reservoir ++ other }
      else let (merged, seed) =
          draw_all (div (of_nat s.count) (of_nat (length s.reservoir)))
            (div (of_nat other_count) (of_nat (length other))) s.reservoir_size s.reservoir other []
            s.rng in
        record s { reservoir = merged; rng = seed }

  -- The moments and the bounds of `merge`, before the reservoirs and the counts.
  unfoldable pub merge_moments : Stats → Stats → Stats
  merge_moments s other =
      let own_weight = of_nat s.count in
      let other_weight = of_nat other.count in
      let combined = add own_weight other_weight in
      let delta = sub other.mean s.mean in
      record s {
        mean = add s.mean (div (mul delta other_weight) combined);
        m2 =
            add s.m2
              (add other.m2 (div (mul (mul (mul delta delta) own_weight) other_weight) combined));
        least = min s.least other.least;
        greatest = max s.greatest other.greatest;
      }

  unfoldable pub merge : Stats → Stats → Stats
  merge s other =
      if eqb other.count 0
      then s
      else let t = merge_reservoir (merge_moments s other) other.reservoir other.count in
        record t { count = t.count + other.count }

  -- The index of the 95th percentile in a sorted reservoir of the given length.
  unfoldable pub p95_index : Bool → ℕ → Option ℕ
  p95_index inverted len =
      if inverted
      then some (len - (ceil_95 len + 1))
      else if eqb len 0
      then none
      else some (min (ceil_95 len - 1) (len - 1))

  -- The element at an index as an `i32`, or the average for an empty reservoir.
  unfoldable pub element : List ℕ → ℕ → ℤ → Option ℤ
  element [] i avg = some avg
  element (x ∷ xs) i avg = cast_some (get_elem? (x ∷ xs) i)

  -- The fields that `finalize` fills in once the two elements are known.
  unfoldable pub summary : Stats → ℤ → ℤ → ObservationsStats
  summary s median quantile = record {
    count = s.count;
    median = median;
    min = s.least;
    max = s.greatest;
    avg = to_i32 s.mean;
    quantile95 = quantile;
    stddev = to_u32 (sqrt (if ltb 1 s.count then div s.m2 (of_nat s.count) else of_nat 0));
  }

  unfoldable pub finalize : Stats → Bool → Option ObservationsStats
  unfolding p95_index element summary
  finalize s inverted =
      if eqb s.count 0
      then some default_stats
      else let sorted = sort s.reservoir in
        let avg = to_i32 s.mean in
        elim (element sorted (length sorted / 2) avg) [
          | none ↦ none
          | some median ↦ elim (p95_index inverted (length sorted)) [
            | none ↦ none
            | some index ↦ elim (element sorted index avg) [
              | none ↦ none
              | some quantile ↦ some (summary s median quantile)
            ]
          ]
        ]
