-- ===== src/Workers/Budgets.antt =====
-- core/src/runner/workers.rs: `WorkerBudgets::partition`.
use redsuite.Prelude.{
  ℕ, zero, suc, if◌then◌else◌, ◌≤◌, ◌<◌, ◌^◌, max, ◌≡◌, refl, List, arith, All, length, sum, ok,
  err, inl, inr, eqb, not, true,
}
use redsuite.Rate.{
  Pacing, unlimited, per_second, rate_not_above_zero, concurrency_not_above_zero, interval,
  split_budget, partition,
}
use redsuite.Rate.Split.{sum-split_budget, split_budget-pos, length-split_budget}
use redsuite.Rate.Shares.{IsPaced, partition-IsPaced, partition_cases, partition-unlimited}
use redsuite.Workers.{WorkerBudgets, workers, wanted, split_iterations, partition_budgets}
use redsuite.Workers.Spans.{Covers, split_iterations-Covers, length-split_iterations-le}

-- A plan in which each of at most `threads` workers has a span of iterations, a rate at which it
-- can run and some of the concurrency, and nothing is lost.
pub record IsPlan (threads iterations concurrency : ℕ) (b : WorkerBudgets) : Type 0 where
  pub one_rate_each : length b.rate ≡ workers b
  pub one_share_each : length b.concurrency ≡ workers b
  pub within_threads : workers b ≤ max threads 1
  pub covered : Covers 0 iterations b.iterations
  pub paced : All IsPaced b.rate
  pub admitting : All (λ part. 0 < part) b.concurrency
  pub shared_out : sum b.concurrency ≡ (if eqb (workers b) 0 then 0 else concurrency)

-- The shares of a budget, over no parts or some.
sum-split_budget-all :
    (total parts : ℕ) → sum (split_budget total parts) ≡ (if eqb parts 0 then 0 else total)
sum-split_budget-all total zero = unfold split_budget in refl
sum-split_budget-all total (suc parts) =
    ground (arith, sum-split_budget total (suc parts) (omega arith))

paced-pos : (rate : ℕ) → IsPaced (per_second rate) → 0 < rate
unfolding interval
paced-pos rate (o, e) = ground arith

-- A split over no more workers than the rate succeeds.
partition-ok :
    (pacing : Pacing) (count : ℕ)
    → IsPaced pacing
    → ((rate : ℕ) → pacing ≡ per_second rate → count ≤ rate)
    → (ps : List Pacing) × (partition pacing count ≡ ok ps)
partition-ok unlimited count paced few = (_, partition-unlimited count)
partition-ok (per_second rate) count paced few =
    let pos = paced-pos rate paced in
    let le = few rate refl in
    elim (partition_cases rate count) [
      | inl (none_offered, _) ↦ absurd (omega arith)
      | inr (inl (_, slow, _)) ↦ absurd (omega arith)
      | inr (inr (_, _, split)) ↦ (_, split)
    ]

wanted-bounds :
    (threads : ℕ) (rate : Pacing) (concurrency : ℕ)
    → IsPaced rate
    → 0 < concurrency
    → let w = wanted threads rate concurrency in
      (0 < w)
      × (w ≤ max threads 1)
      × (w ≤ concurrency)
      × ((offered : ℕ) → rate ≡ per_second offered → w ≤ offered)
unfolding wanted
wanted-bounds threads unlimited concurrency paced h =
    (omega arith, omega arith, omega arith, λ offered e. absurd (cc))
wanted-bounds threads (per_second rate) concurrency paced h =
    let pos = paced-pos rate paced in
    (omega arith, omega arith, omega arith, λ offered e. ground arith)

-- With a 32-bit pacing that has an interval and a concurrency above zero there is always a plan, for
-- any number of threads and iterations.
pub partition_budgets-IsPlan :
    (threads iterations : ℕ) (rate : Pacing) (concurrency : ℕ)
    → IsPaced rate
    → ((offered : ℕ) → rate ≡ per_second offered → offered < 2 ^ 32)
    → 0 < concurrency
    → (b : WorkerBudgets) × (partition_budgets threads iterations rate concurrency ≡ ok b)
      × IsPlan threads iterations concurrency b
unfolding partition_budgets
partition_budgets-IsPlan threads iterations rate concurrency (o, paced) fits h =
    let w = wanted threads rate concurrency in
    let (w_pos, w_threads, w_conc, w_rate) = wanted-bounds threads rate concurrency (o, paced) h in
    let spans = split_iterations iterations w in
    let few = length-split_iterations-le iterations w in
    let (rates, split) =
      partition-ok rate (length spans) (o, paced)
        (λ offered e. omega (arith, w_rate offered e, few)) in
    let (one_each, all_paced) = partition-IsPaced rate (length spans) rates fits split in
    let b : WorkerBudgets = record {
      iterations = spans;
      rate = rates;
      concurrency = split_budget concurrency (length spans);
    } in
    let nonzero : not (eqb concurrency 0) ≡ true = ground arith in
    (
      b,
      rw (paced, nonzero, split, partition_budgets) refl,
      record {
        one_rate_each = one_each;
        one_share_each = length-split_budget concurrency (length spans);
        within_threads = omega (arith, few, w_threads);
        covered = split_iterations-Covers iterations w w_pos;
        paced = all_paced;
        admitting = split_budget-pos concurrency (length spans) (omega (arith, few, w_conc));
        shared_out = sum-split_budget-all concurrency (length spans);
      },
    )

-- A rate of zero fails whatever the concurrency is, and a concurrency of zero fails for every pacing
-- that has an interval.
pub partition_budgets-fails :
    (threads iterations : ℕ) (rate : Pacing) (concurrency : ℕ)
    → IsPaced rate
    → (partition_budgets threads iterations (per_second 0) concurrency ≡ err rate_not_above_zero)
      × (partition_budgets threads iterations rate 0 ≡ err concurrency_not_above_zero)
unfolding partition_budgets interval
partition_budgets-fails threads iterations rate concurrency (o, paced) =
    (refl, rw (paced, partition_budgets) refl)
