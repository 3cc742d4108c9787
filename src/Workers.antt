-- ===== src/Workers.antt =====
-- core/src/runner/workers.rs: how the iterations, the rate and the concurrency of a run are divided
-- over its workers.
pub mod Spans
pub mod Budgets
mod Tests
use redsuite.Prelude.{
  ℕ, ◌+◌, max, min, List, [], ◌∷◌, ltb, if◌then◌else◌, length, Result, ok, ensure, ◌>>=◌, ◌>>◌, not,
  eqb,
}
use redsuite.Rate.{
  Pacing, unlimited, per_second, Error, concurrency_not_above_zero, interval, split_budget,
  partition,
}

-- `take_while(|count| *count > 0)`
unfoldable pub take_while_pos : List ℕ → List ℕ
take_while_pos [] = []
take_while_pos (count ∷ counts) = if ltb 0 count then count ∷ take_while_pos counts else []

-- The spans `(first_id, count)`, with `first_id` advanced by each count.
unfoldable pub spans_from : ℕ → List ℕ → List (ℕ × ℕ)
spans_from first_id [] = []
spans_from first_id (count ∷ counts) = (first_id, count) ∷ spans_from (first_id + count) counts

unfoldable pub split_iterations : ℕ → ℕ → List (ℕ × ℕ)
split_iterations iterations workers =
    spans_from 0 (take_while_pos (split_budget iterations workers))

pub record WorkerBudgets : Type 0 where
  pub iterations : List (ℕ × ℕ)
  pub rate : List Pacing
  pub concurrency : List ℕ

abbrev pub workers : WorkerBudgets → ℕ
workers b = length b.iterations

-- The workers wanted: no more than the concurrency, nor than the rate.
unfoldable pub wanted : ℕ → Pacing → ℕ → ℕ
wanted threads unlimited concurrency = min (max threads 1) concurrency
wanted threads (per_second rate) concurrency = min (min (max threads 1) concurrency) rate

-- `WorkerBudgets::partition`
unfoldable pub partition_budgets : ℕ → ℕ → Pacing → ℕ → Result Error WorkerBudgets
unfolding wanted
partition_budgets threads iterations rate concurrency = do
  _ ← interval rate
  ensure (not (eqb concurrency 0)) concurrency_not_above_zero
  let spans = split_iterations iterations (wanted threads rate concurrency)
  rates ← partition rate (length spans)
  ok (record {
    iterations = spans;
    rate = rates;
    concurrency = split_budget concurrency (length spans);
  })
