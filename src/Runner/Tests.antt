-- ===== src/Runner/Tests.antt =====
-- Runs of core/src/runner with two iterations, over whole numbers for the reals.
use redsuite.Prelude.{
  ℕ, ◌<◌, ◌^◌, ◌≡◌, refl, false, [], ◌∷◌, Option, none, some, ok, err, arith, range_from,
}
use redsuite.Rate.{Pacing, unlimited, per_second, Pacer, interval}
use redsuite.Rate as Rate
use redsuite.Rate.Shares.{IsPaced}
use redsuite.Workers.{WorkerBudgets, workers, partition_budgets}
use redsuite.Stats.Samples.{whole, counter}
use redsuite.Runner.{Encounter, Raw, fresh, run_job, merge_from}
use redsuite.Runner.Jobs.{Reports, run_job-Reports}
use redsuite.Runner.Tallies.{IsTally, fresh-IsTally}
use redsuite.Runner.Merging.{Totals, merge_from-Totals}
use redsuite.Runner.Driver.{iterations, Driver, begin, begin_with, begun, decide}
use redsuite.Runner.Schedule.{Reach, starts, next, decides}
use redsuite.Runner.Ledger.{Ledger, Reach-Ledger}
use redsuite.Runner.Threads.{all_ids, worker_config, RunConfig}
use redsuite.Runner.Joining.{all_ids-partition_budgets}

abbrev idle : Raw whole counter
idle = fresh whole counter "client" false 0

idle-IsTally : IsTally whole counter false idle
idle-IsTally = fresh-IsTally whole counter "client" false 0

merge_from-Totals_example :
    Totals whole counter false (idle ∷ idle ∷ []) (merge_from whole counter idle (idle ∷ []))
merge_from-Totals_example =
    merge_from-Totals whole counter false idle (idle ∷ []) idle-IsTally (idle-IsTally, tt)

abbrev refused : Encounter
refused = record {
  polled = 9000;
  request = ok tt;
  started = 10_000;
  deliver = err "refused";
  delivered_at = 30_000;
  sync = none;
  synced_at = 0;
}

run_job-Reports_example : Reports 1000 refused (run_job 1000 refused)
run_job-Reports_example = run_job-Reports 1000 refused

abbrev seconds : ℕ → ℕ
seconds n = n

abbrev started : Driver whole counter
started = begun whole counter (record { interval = none; next = 5 }) "client" false 0 5

started-Reach : Reach whole counter seconds (iterations 2 none) unlimited 3 "client" false started
unfolding begin begin_with Rate.new interval
started-Reach = starts 0 5 started refl

abbrev decided : Driver whole counter
decided =
    decide whole counter seconds (iterations 2 none)
      (record { now = 6; stop = false; closed = false }) started

decided-Reach : Reach whole counter seconds (iterations 2 none) unlimited 3 "client" false decided
decided-Reach =
    next started-Reach (decides started (record { now = 6; stop = false; closed = false }) refl)

Reach-Ledger_example : Ledger whole counter (iterations 2 none) 3 false decided
Reach-Ledger_example =
    Reach-Ledger whole counter seconds (iterations 2 none) unlimited 3 "client" false decided-Reach

five-IsPaced : IsPaced (per_second 5)
unfolding interval
five-IsPaced = (_, refl)

in_range : (rate : ℕ) → per_second 5 ≡ per_second rate → rate < 2 ^ 32
in_range rate e = ground arith

all_ids-partition_budgets_example :
    (b : WorkerBudgets) × (partition_budgets 4 7 (per_second 5) 3 ≡ ok b)
    × (all_ids b.iterations ≡ range_from 1 7)
    × ((until : Option ℕ) (index : ℕ)
        → index < workers b
        → (part : ℕ × RunConfig) × (worker_config b until index ≡ some part))
all_ids-partition_budgets_example =
    all_ids-partition_budgets 4 7 (per_second 5) 3 five-IsPaced in_range (omega arith)
