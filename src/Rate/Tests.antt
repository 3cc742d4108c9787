-- ===== src/Rate/Tests.antt =====
-- Runs of the rate arithmetic of core/src/transport/rate.rs.
use redsuite.Prelude.{
  ℕ, ◌+◌, ◌^◌, ◌*◌, ◌≤◌, ◌<◌, ◌≡◌, refl, ◌⊎◌, List, [], ◌∷◌, length, some, arith, ok, err,
}
use redsuite.Rate.{
  Pacing, per_second, rate_not_above_zero, rate_cannot_be_split, interval, split_budget, partition,
  Pacer, wait, timer_resolution,
}
use redsuite.Rate.Shares.{combine_all, combine_all-partition, IsDivision, partition-IsDivision}
use redsuite.Rate.Schedule.{returns_at, wait_all, wait_all-returns}

abbrev two_workers : List Pacing
two_workers = per_second 4 ∷ per_second 3 ∷ []

split_in_two : partition (per_second 7) 2 ≡ ok two_workers
unfolding partition interval split_budget
split_in_two = refl

combine_all-partition_example : combine_all (per_second 4) (per_second 3 ∷ []) ≡ per_second 7
combine_all-partition_example =
    combine_all-partition 7 2 (per_second 4) (per_second 3 ∷ []) (omega arith) split_in_two

partition-IsDivision_example :
    (◌≡◌ {A = ℕ} 7 0) × (partition (per_second 7) 2 ≡ err rate_not_above_zero)
    ⊎ (0 < 7) × (7 < 2) × (partition (per_second 7) 2 ≡ err (rate_cannot_be_split 7 2))
    ⊎ (0 < 7) × (◌≡◌ {A = ℕ} 2 0) × (partition (per_second 7) 2 ≡ ok [])
    ⊎ (0 < 2)
      × (2 ≤ 7)
      × ((ps : List Pacing) × (partition (per_second 7) 2 ≡ ok ps) × IsDivision 7 2 ps)
partition-IsDivision_example = partition-IsDivision 7 2 (omega arith)

in_range : (rate : ℕ) → per_second 7 ≡ per_second rate → rate < 2 ^ 32
in_range rate e = ground arith

abbrev pacer : Pacer
pacer = record { interval = some 1_000; next = 0 }

abbrev calls : List ℕ
calls = 10 ∷ 20 ∷ []

wait_all-returns_example :
    pacer.next + length calls * 1_000
    < returns_at 30 (wait (wait_all pacer calls) 30).1 + timer_resolution
wait_all-returns_example = wait_all-returns pacer 1_000 calls 30 refl
