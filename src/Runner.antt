-- ===== src/Runner.antt =====
-- core/src/runner/mod.rs: the outcome of a run, the jobs that it records, and how the outcomes of several
-- drivers are merged. Instants are counted in nanoseconds, an error is its text, and an operation
-- that a job awaits is what it gives and when. The seed of a statistic stands for its entropy.
-- `none` is the panic of a percentile out of range.
pub mod Driver
pub mod Jobs
pub mod Tallies
pub mod Merging
pub mod Schedule
pub mod Flight
pub mod Ledger
pub mod Threads
pub mod Joining
mod Tests
use Prim.Native.String.{◌++◌ as ◌<>◌}
use redsuite.Prelude.{
  ℕ, ◌+◌, ◌-◌, ◌/◌, ◌%◌, ◌^◌, max, Bool, true, false, List, [], ◌∷◌, Option, none, some, String,
  Result, ok, err, ensure, ◌==◌, string_eq, if◌then◌else◌, eqb,
}
use redsuite.Rate.{Pacing, unlimited, combine}
use redsuite.Stats.{Floats, Rng, ObservationsStats, default_stats, Stats, push, finalize, add_rates}
use redsuite.Stats as S

-- The times in microseconds, cut to 32 bits.
abbrev pub micros32 : ℕ → ℕ → ℕ
micros32 since at = (at - since) / 1000 % 2 ^ 32

pub record Job : Type 0 where
  pub scheduling : ℕ
  pub delivery : Option ℕ
  pub sync : Option ℕ
  pub outcome : Result String (Unit {0})

-- What a job meets: when it is first polled, what its request, its delivery and the sync that it may
-- have give, and when.
pub record Encounter : Type 0 where
  pub polled : ℕ
  pub request : Result String (Unit {0})
  pub started : ℕ
  pub deliver : Result String (Unit {0})
  pub delivered_at : ℕ
  pub sync : Option (Result String (Unit {0}))
  pub synced_at : ℕ

-- The context of an error stands before it, as the tally prints it.
unfoldable pub after_sync : Encounter → Option (Result String (Unit {0})) → Job → Job
after_sync e none job = job
after_sync e (some (ok u)) job = record job { sync = some (micros32 e.started e.synced_at) }
after_sync e (some (err why)) job = record job { outcome = err ("sync: " <> why) }

unfoldable pub after_deliver : Encounter → Result String (Unit {0}) → Job → Job
unfolding after_sync
after_deliver e (ok u) job =
    after_sync e e.sync (record job { delivery = some (micros32 e.started e.delivered_at) })
after_deliver e (err why) job = record job { outcome = err why }

unfoldable pub after_request : Encounter → Result String (Unit {0}) → Job → Job
unfolding after_deliver
after_request e (ok u) job = after_deliver e e.deliver job
after_request e (err why) job = record job { outcome = err why }

-- `Job::run`
unfoldable pub run_job : ℕ → Encounter → Job
unfolding after_request
run_job admitted e = after_request e e.request (record {
  scheduling = micros32 admitted e.polled;
  delivery = none;
  sync = none;
  outcome = ok tt;
})

pub record RunOutcome (S : Type 0) : Type 0 where
  pub delivered : ℕ
  pub failed : ℕ
  pub first_error : Option String
  pub delivery : S
  pub scheduling : S
  pub origin : String
  pub sync : Option S
  pub offered : Pacing
  pub rps : ObservationsStats
  pub wall : ℕ
  pub admission_wall : ℕ

-- `RunOutcome::check_failures`: the failures, with the first error, unless there are none.
unfoldable pub check_failures : {S : Type 0} → RunOutcome S → Result (ℕ × Option String) (Unit {0})
check_failures o = ensure (eqb o.failed 0) (o.failed, o.first_error)

abbrev pub or_own : {A : Type 0} → Option A → Option A → Option A
or_own none other = other
or_own (some own) other = some own

module _ (f : Floats) (r : Rng f) where
  abbrev pub Raw : Type 0
  Raw = RunOutcome (Stats f r)

  -- The tally of a driver that starts, with the seeds of its statistics.
  unfoldable pub fresh : String → Bool → r.Seed → Raw
  fresh origin syncs seed = record {
    delivered = 0;
    failed = 0;
    first_error = none;
    delivery = S.new f r seed;
    scheduling = S.new f r seed;
    origin = origin;
    sync = if syncs then some (S.new f r seed) else none;
    offered = unlimited;
    rps = default_stats;
    wall = 0;
    admission_wall = 0;
  }

  unfoldable pub push_some : Stats f r → Option ℕ → Stats f r
  push_some s none = s
  push_some s (some micros) = push f r s micros

  unfoldable pub push_both : Option (Stats f r) → Option ℕ → Option (Stats f r)
  push_both (some s) (some micros) = some (push f r s micros)
  push_both (some s) none = some s
  push_both none micros = none

  unfoldable pub count_outcome : Result String (Unit {0}) → Raw → Raw
  count_outcome (ok u) t = record t { delivered = t.delivered + 1 }
  count_outcome (err why) t = record t {
    failed = t.failed + 1;
    first_error = or_own t.first_error (some why);
  }

  -- `RawRunOutcome::record`
  unfoldable pub record_job : Job → Raw → Raw
  unfolding push_some push_both count_outcome
  record_job job t = count_outcome job.outcome (record t {
    scheduling = push f r t.scheduling job.scheduling;
    delivery = push_some t.delivery job.delivery;
    sync = push_both t.sync job.sync;
  })

  unfoldable pub merge_sync : Option (Stats f r) → Option (Stats f r) → Option (Stats f r)
  merge_sync (some own) (some other) = some (S.merge f r own other)
  merge_sync (some own) none = some own
  merge_sync none other = other

  -- `RawRunOutcome::merge`
  unfoldable pub merge : Raw → Raw → Raw
  unfolding merge_sync
  merge own other = record {
    delivered = own.delivered + other.delivered;
    failed = own.failed + other.failed;
    first_error = or_own own.first_error other.first_error;
    delivery = S.merge f r own.delivery other.delivery;
    scheduling = S.merge f r own.scheduling other.scheduling;
    origin = if own.origin == "" then other.origin else own.origin;
    sync = merge_sync own.sync other.sync;
    offered = combine own.offered other.offered;
    rps = add_rates own.rps other.rps;
    wall = max own.wall other.wall;
    admission_wall = max own.admission_wall other.admission_wall;
  }

  -- `reduce`, from its first element.
  unfoldable pub merge_from : Raw → List Raw → Raw
  unfolding merge
  merge_from merged [] = merged
  merge_from merged (outcome ∷ outcomes) = merge_from (merge merged outcome) outcomes

  unfoldable pub finalize_sync : Option (Stats f r) → Option (Option ObservationsStats)
  finalize_sync none = some none
  finalize_sync (some s) = elim (finalize f r s false) [ none ↦ none | some o ↦ some (some o) ]

  -- `RawRunOutcome::finalize`
  unfoldable pub finalize_outcome : Raw → Option (RunOutcome ObservationsStats)
  unfolding finalize_sync
  finalize_outcome t = elim (finalize f r t.delivery false) [
    | none ↦ none
    | some delivery ↦ elim (finalize f r t.scheduling false) [
      | none ↦ none
      | some scheduling ↦ elim (finalize_sync t.sync) [
        | none ↦ none
        | some sync ↦ some (record {
          delivered = t.delivered;
          failed = t.failed;
          first_error = t.first_error;
          delivery = delivery;
          scheduling = scheduling;
          origin = t.origin;
          sync = sync;
          offered = t.offered;
          rps = t.rps;
          wall = t.wall;
          admission_wall = t.admission_wall;
        })
      ]
    ]
  ]

  abbrev pub default_outcome : RunOutcome ObservationsStats
  default_outcome = record {
    delivered = 0;
    failed = 0;
    first_error = none;
    delivery = default_stats;
    scheduling = default_stats;
    origin = "";
    sync = none;
    offered = unlimited;
    rps = default_stats;
    wall = 0;
    admission_wall = 0;
  }

  unfoldable pub merge_outcomes : List Raw → Option (RunOutcome ObservationsStats)
  unfolding merge_from finalize_outcome
  merge_outcomes [] = some default_outcome
  merge_outcomes (outcome ∷ outcomes) = finalize_outcome (merge_from outcome outcomes)
