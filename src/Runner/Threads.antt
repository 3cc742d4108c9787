-- ===== src/Runner/Threads.antt =====
-- core/src/runner/workers.rs: the workers of a run, one to a thread, and the run that is divided over them.
-- How a worker's task ends is given by its index.
use Prim.Native.String.{◌++◌ as ◌<>◌}
use redsuite.Prelude.{
  ℕ, ◌+◌, Bool, true, false, List, [], ◌∷◌, ◌++◌, map, Option, none, some, String, Result, ok, err,
  ◌>>=◌, eqb, if◌then◌else◌, get_elem?, range_from,
}
use redsuite.Rate as Rate
use redsuite.Rate.{Pacing}
use redsuite.Workers.{WorkerBudgets, workers, partition_budgets}
use redsuite.Stats.{Floats, Rng, ObservationsStats}
use redsuite.Runner.{RunOutcome, Raw, merge_outcomes}

pub record ThreadRunConfig : Type 0 where
  pub until : Option ℕ
  pub threads : ℕ
  pub iterations : ℕ
  pub rate : Pacing
  pub concurrency : ℕ

pub record RunConfig : Type 0 where
  pub until : Option ℕ
  pub iterations : ℕ
  pub rate : Pacing
  pub concurrency : ℕ

-- A panic's payload.
pub data Payload : Type 0 where
  text : String → Payload
  other : Payload

unfoldable pub panic_message : Payload → String
panic_message (text message) = message
panic_message other = "non-string panic payload"

pub data Ended (T : Type 0) : Type 0 where
  returned : Result String T → Ended T
  panicked : Payload → Ended T

pub data Handles (T : Type 0) : Type 0 where
  local : Ended T → Handles T
  threads : List (Ended T) → Handles T

-- `stop` is the value of the channel that the workers watch.
pub record Workers (T : Type 0) : Type 0 where
  pub stop : Bool
  pub handles : Handles T

-- `spawn_workers`: one worker runs in place, several on threads of their own.
unfoldable pub spawn_workers : {T : Type 0} → ℕ → (ℕ → Ended T) → Workers T
spawn_workers count ends =
    if eqb count 1
    then record { stop = false; handles = local (ends 0) }
    else record { stop = false; handles = threads (map ends (range_from 0 count)) }

-- `Workers::stop`
unfoldable pub stop_workers : {T : Type 0} → Workers T → Workers T
stop_workers w = record w { stop = true }

unfoldable pub local_result : {T : Type 0} → Ended T → Result String (List T)
local_result (returned (ok t)) = ok (t ∷ [])
local_result (returned (err why)) = err why
local_result (panicked payload) = err "driver worker failed"

unfoldable pub thread_result : {T : Type 0} → Ended T → Result String T
unfolding panic_message
thread_result (returned result) = result
thread_result (panicked payload) = err ("driver worker panicked: " <> panic_message payload)

-- `collect` into a result: the first error, or all the values.
unfoldable pub collect : {T : Type 0} → List (Result String T) → Result String (List T)
collect [] = ok []
collect (result ∷ results) = result >>= λ t. collect results >>= λ ts. ok (t ∷ ts)

unfoldable pub join_handles : {T : Type 0} → Handles T → Result String (List T)
unfolding local_result thread_result collect
join_handles (local ended) = local_result ended
join_handles (threads ends) = collect (map thread_result ends)

-- `Workers::join`, with the workers that it leaves.
unfoldable pub join : {T : Type 0} → Workers T → Workers T × Result String (List T)
unfolding stop_workers join_handles
join w = (stop_workers w, join_handles w.handles)

-- The part of a run that a worker has: the first of its ids, and its configuration. `none` is the panic
-- of an index out of range.
unfoldable pub worker_config : WorkerBudgets → Option ℕ → ℕ → Option (ℕ × RunConfig)
worker_config b until index = elim (get_elem? b.iterations index) [
  | none ↦ none
  | some (first_id, iterations) ↦ elim (get_elem? b.rate index) [
    | none ↦ none
    | some rate ↦ elim (get_elem? b.concurrency index) [
      | none ↦ none
      | some concurrency ↦ some (
        first_id,
        record { until = until; iterations = iterations; rate = rate; concurrency = concurrency },
      )
    ]
  ]
]

-- The ids that a worker requests: `request(first_id + iteration)`, from the first iteration, which is 1.
unfoldable pub worker_ids : ℕ → ℕ → List ℕ
worker_ids first_id iterations = map (λ iteration. first_id + iteration) (range_from 1 iterations)

unfoldable pub all_ids : List (ℕ × ℕ) → List ℕ
unfolding worker_ids
all_ids [] = []
all_ids ((first_id, iterations) ∷ spans) = worker_ids first_id iterations ++ all_ids spans

pub data ThreadedError : Type 0 where
  bad_budget : Rate.Error → ThreadedError
  worker_failed : String → ThreadedError

module _ (f : Floats) (r : Rng f) (run : ℕ → ℕ → RunConfig → Ended (Raw f r)) where
  -- A worker that is started: without its part of the budgets it panics.
  unfoldable pub start_worker : WorkerBudgets → Option ℕ → ℕ → Ended (Raw f r)
  unfolding worker_config
  start_worker b until index = elim (worker_config b until index) [
    | none ↦ panicked other
    | some (first_id, config) ↦ run index first_id config
  ]

  unfoldable pub merge_joined :
      Result String (List (Raw f r)) → Result ThreadedError (Option (RunOutcome ObservationsStats))
  merge_joined (err why) = err (worker_failed why)
  merge_joined (ok outcomes) = ok (merge_outcomes f r outcomes)

  unfoldable pub with_budgets :
      Option ℕ
      → Result Rate.Error WorkerBudgets
      → Result ThreadedError (Option (RunOutcome ObservationsStats))
  unfolding start_worker spawn_workers join merge_joined
  with_budgets until (err why) = err (bad_budget why)
  with_budgets until (ok b) =
      merge_joined (join (spawn_workers (workers b) (start_worker b until))).1

  unfoldable pub execute_threaded :
      ThreadRunConfig → Result ThreadedError (Option (RunOutcome ObservationsStats))
  unfolding with_budgets
  execute_threaded c =
      with_budgets c.until (partition_budgets c.threads c.iterations c.rate c.concurrency)
