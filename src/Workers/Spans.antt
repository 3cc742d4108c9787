-- ===== src/Workers/Spans.antt =====
-- core/src/runner/workers.rs: the spans of `split_iterations`.
use redsuite.Prelude.{
  ℕ, zero, suc, ◌+◌, ◌≤◌, ◌<◌, ◌≡◌, refl, List, [], ◌∷◌, map, arith, length, sum, range_from,
  Bool-cases, ltb, inl, inr, ltb→lt, ap,
}
use redsuite.Rate.{share, split_budget}
use redsuite.Rate.Split.{sum-share, sum-split_budget, length-split_budget}
use redsuite.Workers.{take_while_pos, spans_from, split_iterations}

-- The spans start at `first`, follow one another without a gap or an overlap, hold one iteration at
-- least each, and end at `last`.
abbrev pub Covers : ℕ → ℕ → List (ℕ × ℕ) → Type 0
Covers first last [] = first ≡ last
Covers first last ((id, count) ∷ spans) =
    (id ≡ first) × (0 < count) × Covers (first + count) last spans

module _ (base remainder : ℕ) where
  abbrev shares : ℕ → ℕ → List ℕ
  shares start count = map (share base remainder) (range_from start count)

  spans-Covers :
      (start count first last : ℕ)
      → first + sum (shares start count) ≡ last
      → Covers first last (spans_from first (take_while_pos (shares start count)))
  unfolding take_while_pos spans_from
  spans-Covers start zero first last e = omega arith
  spans-Covers start (suc count) first last e =
      elim (Bool-cases (ltb 0 (share base remainder start))) [
        | inl some_left ↦
            rw some_left
              (refl, ltb→lt _ _ some_left, spans-Covers (suc start) count _ last (omega arith))
        | inr none_left ↦ rw none_left (ground (arith, sum-share base remainder (suc start) count))
      ]

-- For at least one worker the spans cover the iterations from the first to the last.
pub split_iterations-Covers :
    (iterations workers : ℕ)
    → 0 < workers
    → Covers 0 iterations (split_iterations iterations workers)
unfolding split_iterations split_budget
split_iterations-Covers iterations workers h =
    spans-Covers _ _ 0 workers 0 iterations (omega (arith, sum-split_budget iterations workers h))

length-take_while_pos-le : (xs : List ℕ) → length (take_while_pos xs) ≤ length xs
unfolding take_while_pos
length-take_while_pos-le [] = omega arith
length-take_while_pos-le (x ∷ xs) = ground (arith, length-take_while_pos-le xs)

length-spans_from : (first : ℕ) (xs : List ℕ) → length (spans_from first xs) ≡ length xs
unfolding spans_from
length-spans_from first [] = refl
length-spans_from first (x ∷ xs) = ap suc (length-spans_from (first + x) xs)

-- There are no more spans than workers asked for.
pub length-split_iterations-le :
    (iterations workers : ℕ) → length (split_iterations iterations workers) ≤ workers
unfolding split_iterations
length-split_iterations-le iterations workers = omega (
  arith,
  length-spans_from 0 (take_while_pos (split_budget iterations workers)),
  length-take_while_pos-le (split_budget iterations workers),
  length-split_budget iterations workers,
)
