-- ===== src/Workers/Tests.antt =====
-- A plan of core/src/runner/workers.rs for seven iterations.
use redsuite.Prelude.{ℕ, ◌<◌, ◌^◌, ◌≡◌, refl, ok, arith}
use redsuite.Rate.{per_second, interval}
use redsuite.Rate.Shares.{IsPaced}
use redsuite.Workers.{WorkerBudgets, partition_budgets}
use redsuite.Workers.Budgets.{IsPlan, partition_budgets-IsPlan}

five-IsPaced : IsPaced (per_second 5)
unfolding interval
five-IsPaced = (_, refl)

in_range : (rate : ℕ) → per_second 5 ≡ per_second rate → rate < 2 ^ 32
in_range rate e = ground arith

partition_budgets-IsPlan_example :
    (b : WorkerBudgets) × (partition_budgets 4 7 (per_second 5) 3 ≡ ok b) × IsPlan 4 7 3 b
partition_budgets-IsPlan_example =
    partition_budgets-IsPlan 4 7 (per_second 5) 3 five-IsPaced in_range (omega arith)
