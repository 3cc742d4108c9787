-- ===== src/Rate/Shares.antt =====
-- core/src/transport/rate.rs: `Pacing::partition` and `Pacing::combine`.
use redsuite.Prelude.{
  ap₂, All-weaken, max, ℕ, zero, suc, ◌+◌, ◌/◌, ◌%◌, ◌^◌, ◌≤◌, ◌<◌, ◌≡◌, refl, ◌∙◌, ap, subst, ◌⊎◌,
  inl, inr, List, [], ◌∷◌, map, arith, All, sum, length, length-map, length-replicate, Result, ok,
  err, Option, none, some, replicate,
}
use redsuite.Rate.{
  Pacing, unlimited, per_second, rate_not_above_zero, rate_cannot_be_split, interval, split_budget,
  partition, combine, u32_max, one_sec,
}
use redsuite.Rate.Split.{split_budget-pos, length-split_budget, sum-split_budget, split_budget-even}

abbrev pub to_pacing : ℕ → Pacing
to_pacing part = per_second (part % 2 ^ 32)

-- The branches of `partition`.
pub partition_cases :
    (rate workers : ℕ)
    → (rate ≡ 0) × (partition (per_second rate) workers ≡ err rate_not_above_zero)
      ⊎ (0 < rate)
        × (rate < workers)
        × (partition (per_second rate) workers ≡ err (rate_cannot_be_split rate workers))
      ⊎ (0 < rate)
        × (workers ≤ rate)
        × (partition (per_second rate) workers ≡ ok (map to_pacing (split_budget rate workers)))
unfolding partition interval
partition_cases rate workers = ground arith

-- The rates of several workers taken together, as the merge of their outcomes does.
unfoldable pub combine_all : Pacing → List Pacing → Pacing
combine_all p [] = p
combine_all p (q ∷ qs) = combine_all (combine p q) qs

combine_all-map :
    (own : ℕ) (parts : List ℕ)
    → own + sum parts ≤ u32_max
    → combine_all (per_second own) (map to_pacing parts) ≡ per_second (own + sum parts)
unfolding combine_all combine
combine_all-map own [] h = ground arith
combine_all-map own (part ∷ parts) h = ground (arith, combine_all-map (own + part) parts)

combine_shares :
    (rate : ℕ) (parts : List ℕ) (p : Pacing) (ps : List Pacing)
    → rate ≤ u32_max
    → sum parts ≡ rate
    → map to_pacing parts ≡ p ∷ ps
    → combine_all p ps ≡ per_second rate
combine_shares rate [] p ps fits total e = cc
combine_shares rate (part ∷ parts) p ps fits total e = ground (arith, combine_all-map part parts)

ok-inj : {A E : Type 0} {a b : A} → ◌≡◌ {A = Result E A} (ok a) (ok b) → a ≡ b
ok-inj e = cc

split_budget-zero : (total : ℕ) → split_budget total 0 ≡ []
unfolding split_budget
split_budget-zero total = refl

-- Splitting a 32-bit rate over workers and combining the workers' rates again gives the rate back.
pub combine_all-partition :
    (rate workers : ℕ) (p : Pacing) (ps : List Pacing)
    → rate < 2 ^ 32
    → partition (per_second rate) workers ≡ ok (p ∷ ps)
    → combine_all p ps ≡ per_second rate
combine_all-partition rate zero p ps fits e = elim (partition_cases rate zero) [
  | inl (_, none_offered) ↦ cc
  | inr (inl (_, _, too_slow)) ↦ cc
  | inr (inr (_, _, split)) ↦ cc (ap (map to_pacing) (split_budget-zero rate))
]
combine_all-partition rate (suc workers) p ps fits e = elim (partition_cases rate (suc workers)) [
  | inl (_, none_offered) ↦ cc
  | inr (inl (_, _, too_slow)) ↦ cc
  | inr (inr (_, _, split)) ↦
      combine_shares rate (split_budget rate (suc workers)) p ps (omega arith)
        (sum-split_budget rate (suc workers) (omega arith)) (cc)
]

-- A pacing at which a worker can run: its interval is defined.
abbrev pub IsPaced : Pacing → Type 0
IsPaced p = (o : Option ℕ) × (interval p ≡ ok o)

unlimited-IsPaced : IsPaced unlimited
unfolding interval
unlimited-IsPaced = (none, refl)

to_pacing-IsPaced : (part : ℕ) → 0 < part → part < 2 ^ 32 → IsPaced (to_pacing part)
unfolding interval
to_pacing-IsPaced part pos fits = (some (one_sec / (part % 2 ^ 32)), ground arith)

replicate-IsPaced : (n : ℕ) → All IsPaced (replicate n unlimited)
replicate-IsPaced zero = tt
replicate-IsPaced (suc n) = (unlimited-IsPaced, replicate-IsPaced n)

shares-IsPaced :
    (parts : List ℕ)
    → All (λ part. 0 < part) parts
    → sum parts < 2 ^ 32
    → All IsPaced (map to_pacing parts)
shares-IsPaced [] pos fits = tt
shares-IsPaced (part ∷ parts) pos fits =
    (to_pacing-IsPaced part pos.0 (omega arith), shares-IsPaced parts pos.1 (omega arith))

split-IsPaced :
    (rate workers : ℕ)
    → rate < 2 ^ 32
    → workers ≤ rate
    → All IsPaced (map to_pacing (split_budget rate workers))
split-IsPaced rate zero fits le = rw (split_budget-zero rate) tt
split-IsPaced rate (suc workers) fits le =
    shares-IsPaced _ (split_budget-pos rate (suc workers) le)
      (omega (arith, sum-split_budget rate (suc workers) (omega arith)))

pub partition-unlimited :
    (workers : ℕ) → partition unlimited workers ≡ ok (replicate workers unlimited)
unfolding partition
partition-unlimited workers = refl

-- A split of a 32-bit rate, or of no rate, gives every worker one pacing, and one whose interval is defined: no worker is handed
-- a rate of zero.
pub partition-IsPaced :
    (pacing : Pacing) (workers : ℕ) (ps : List Pacing)
    → ((rate : ℕ) → pacing ≡ per_second rate → rate < 2 ^ 32)
    → partition pacing workers ≡ ok ps
    → (length ps ≡ workers) × All IsPaced ps
partition-IsPaced unlimited workers ps fits e =
    let same : replicate workers unlimited ≡ ps = cc (partition-unlimited workers) in
    subst (λ l. (length l ≡ workers) × All IsPaced l) same
      (length-replicate workers unlimited, replicate-IsPaced workers)
partition-IsPaced (per_second rate) workers ps fits e = elim (partition_cases rate workers) [
  | inl (_, none_offered) ↦ absurd (cc)
  | inr (inl (_, _, too_slow)) ↦ absurd (cc)
  | inr (inr (pos, le, split)) ↦
      let same : map to_pacing (split_budget rate workers) ≡ ps = cc in
      subst (λ l. (length l ≡ workers) × All IsPaced l) same
        (
          length-map to_pacing (split_budget rate workers) ∙ length-split_budget rate workers,
          split-IsPaced rate workers (fits rate refl) le,
        )
]

map-to_pacing : (parts : List ℕ) → sum parts < 2 ^ 32 → map to_pacing parts ≡ map per_second parts
map-to_pacing [] h = refl
map-to_pacing (part ∷ parts) h =
    ap₂ (λ p ps. p ∷ ps) (ap per_second (omega arith)) (map-to_pacing parts (omega arith))

-- Pacings that divide a rate evenly and wholly over workers, none of whom is left without one.
abbrev pub IsDivision : ℕ → ℕ → List Pacing → Type 0
IsDivision rate workers ps =
    (parts : List ℕ) × (ps ≡ map per_second parts)
    × (length parts ≡ workers)
    × (sum parts ≡ rate)
    × All (λ part. 0 < part) parts
    × All (λ part. (rate / workers ≤ part) × (part ≤ rate / workers + 1)) parts

split-IsDivision :
    (rate workers : ℕ)
    → rate < 2 ^ 32
    → 0 < workers
    → workers ≤ rate
    → IsDivision rate workers (map to_pacing (split_budget rate workers))
split-IsDivision rate zero fits some_workers le = absurd (omega arith)
split-IsDivision rate (suc n) fits some_workers le =
    let whole = sum-split_budget rate (suc n) some_workers in
    let more : max (suc n) 1 ≡ suc n = omega arith in
    (
      split_budget rate (suc n),
      map-to_pacing (split_budget rate (suc n)) (omega (arith, whole)),
      length-split_budget rate (suc n),
      whole,
      split_budget-pos rate (suc n) le,
      All-weaken _ _ (split_budget rate (suc n))
          (λ part h. subst (λ w. (rate / w ≤ part) × (part ≤ rate / w + 1)) more h)
          (split_budget-even rate (suc n)),
    )

-- What `partition` answers for a 32-bit rate: an error for the rate zero, another for a rate below the
-- number of workers, nothing for no workers, and otherwise one rate for each worker. These are all above zero,
-- differ by at most one, and add up to the rate.
pub partition-IsDivision :
    (rate workers : ℕ)
    → rate < 2 ^ 32
    → (rate ≡ 0) × (partition (per_second rate) workers ≡ err rate_not_above_zero)
      ⊎ (0 < rate)
        × (rate < workers)
        × (partition (per_second rate) workers ≡ err (rate_cannot_be_split rate workers))
      ⊎ (0 < rate) × (workers ≡ 0) × (partition (per_second rate) workers ≡ ok [])
      ⊎ (0 < workers)
        × (workers ≤ rate)
        × ((ps : List Pacing) × (partition (per_second rate) workers ≡ ok ps)
            × IsDivision rate workers ps)
partition-IsDivision rate zero fits = elim (partition_cases rate zero) [
  | inl refused ↦ inl refused
  | inr (inl refused) ↦ inr (inl refused)
  | inr (inr (some_rate, le, split)) ↦
      inr (
        inr
          (inl (some_rate, refl, split ∙ ap (λ l. ok (map to_pacing l)) (split_budget-zero rate))))
]
partition-IsDivision rate (suc n) fits = elim (partition_cases rate (suc n)) [
  | inl refused ↦ inl refused
  | inr (inl refused) ↦ inr (inl refused)
  | inr (inr (some_rate, le, split)) ↦
      let some_workers : 0 < suc n = omega arith in
      inr (
        inr
          (inr (some_workers, le, (_, split, split-IsDivision rate (suc n) fits some_workers le))))
]
