-- ===== src/Rate/Split.antt =====
-- core/src/transport/rate.rs: the shares of `split_budget`.
use redsuite.Prelude.{
  ℕ, zero, suc, ◌+◌, ◌-◌, ◌*◌, ◌/◌, ◌%◌, ◌≤◌, ◌<◌, max, min, ◌≡◌, map, arith, All, All-map,
  All-weaken, All-everywhere, sum, length, length-map, length-range_from, range_from, ◌∙◌,
}
use native.Mathlib.Nat.{div-add-mod, mod-lt}
use redsuite.Rate.{split_budget, share}

-- The shares from worker `start` on add up to their bases and the extra units still to be given.
pub sum-share :
    (base remainder start count : ℕ)
    → sum (map (share base remainder) (range_from start count))
      ≡ count * base + min count (remainder - start)
sum-share base remainder start zero = omega arith
sum-share base remainder start (suc count) =
    ground (arith, sum-share base remainder (suc start) count)

pub length-split_budget : (total parts : ℕ) → length (split_budget total parts) ≡ parts
unfolding split_budget
length-split_budget total parts = length-map _ (range_from 0 parts) ∙ length-range_from 0 parts

-- For at least one part the shares add up to the whole budget: nothing is lost or added.
pub sum-split_budget : (total parts : ℕ) → 0 < parts → sum (split_budget total parts) ≡ total
unfolding split_budget
sum-split_budget total parts h = grind (
  arith,
  sum-share (total / max parts 1) (total % max parts 1) 0 parts,
  div-add-mod total parts,
  mod-lt,
)

-- Every share is the rounded quotient or one more, so two shares differ by at most one.
pub split_budget-even :
    (total parts : ℕ)
    → All
        (λ part. (total / max parts 1 ≤ part) × (part ≤ total / max parts 1 + 1))
        (split_budget total parts)
unfolding split_budget
split_budget-even total parts =
    All-map _ _ (range_from 0 parts) (All-everywhere _ (range_from 0 parts) (λ index. ground arith))

div-pos : (total parts : ℕ) → 0 < parts → parts ≤ total → 0 < total / max parts 1
div-pos total parts h le = grind (arith, div-add-mod total parts, mod-lt)

-- A budget of at least one unit for each part leaves no part empty.
pub split_budget-pos :
    (total parts : ℕ) → parts ≤ total → All (λ part. 0 < part) (split_budget total parts)
split_budget-pos total zero le = unfold split_budget in tt
split_budget-pos total (suc parts) le =
    All-weaken _ _ (split_budget total (suc parts))
      (λ part h. omega (arith, h, div-pos total (suc parts) (omega arith) le))
      (split_budget-even total (suc parts))
