-- ===== src/Wait.antt =====
-- core/src/wait.rs: retries of an operation up to a deadline, and waits for a change of a shared state.
-- Time is counted in milliseconds. An operation's attempts and how long they take are given by the
-- number of the attempt. Of `Notify`, a library, this uses that `notify_waiters` wakes each waiter that
-- has been enabled.
pub mod Retry
pub mod Wakeup
mod Tests
use redsuite.Prelude.{
  ℕ, zero, suc, ◌+◌, ◌-◌, min, Bool, true, false, ◌||◌, Option, none, some, Result, ok, err, leb,
  if◌then◌else◌,
}

abbrev pub retry_interval : ℕ
retry_interval = 200

-- `ControlFlow<T, Error>`: done with a value, or pending for a reason.
pub data Readiness (T E : Type 0) : Type 0 where
  ready : T → Readiness T E
  pending : E → Readiness T E

unfoldable pub check : {T E : Type 0} → Result E T → Readiness T E
check (ok value) = ready value
check (err why) = pending why

unfoldable pub when : {T : Type 0} → Bool → T → Readiness T T
when true observed = ready observed
when false observed = pending observed

-- What an attempt gives and takes, and by how much the sleep after it overshoots.
pub record Attempt (E T : Type 0) : Type 0 where
  pub result : Result E T
  pub took : ℕ
  pub lag : ℕ

-- What a retry returns: the last attempt's result, how many there were, and the time.
pub record Retried (E T : Type 0) : Type 0 where
  pub result : Result E T
  pub attempts : ℕ
  pub now : ℕ

module _ {E T : Type 0} (operation : ℕ → Attempt E T) (interval deadline : ℕ) where
  -- After a failure: the deadline has passed, or the loop sleeps and goes on.
  unfoldable pub after_failure : E → ℕ → ℕ → ℕ → (ℕ → Option (Retried E T)) → Option (Retried E T)
  after_failure why attempts now lag next =
      if leb deadline now
      then some (record { result = err why; attempts = attempts; now = now })
      else next (min (now + interval) deadline + lag)

  unfoldable pub after_attempt :
      Result E T → ℕ → ℕ → ℕ → (ℕ → Option (Retried E T)) → Option (Retried E T)
  unfolding after_failure
  after_attempt (ok value) attempts now lag next =
      some (record { result = ok value; attempts = attempts; now = now })
  after_attempt (err why) attempts now lag next = after_failure why attempts now lag next

  -- The loop of `retry_every` on fuel, from attempt `n` at the time `now`.
  unfoldable pub retry_loop : ℕ → ℕ → ℕ → Option (Retried E T)
  unfolding after_attempt
  retry_loop zero n now = none
  retry_loop (suc fuel) n now =
      let attempt = operation n in
      after_attempt attempt.result (suc n) (now + attempt.took) attempt.lag
        (λ later. retry_loop fuel (suc n) later)

-- `retry_every`, begun at the time `now`.
unfoldable pub retry_every :
    {E T : Type 0} → (ℕ → Attempt E T) → ℕ → ℕ → ℕ → ℕ → Option (Retried E T)
unfolding retry_loop
retry_every operation timeout interval fuel now =
    retry_loop operation interval (now + timeout) fuel 0 now

unfoldable pub retry : {E T : Type 0} → (ℕ → Attempt E T) → ℕ → ℕ → ℕ → Option (Retried E T)
unfolding retry_every
retry operation timeout fuel now = retry_every operation timeout retry_interval fuel now

-- Where `on_change` stands; the flag is whether its waiter has been notified since it was enabled.
pub data Phase (E T : Type 0) : Type 0 where
  starting : Phase E T
  enabled waiting : (notified : Bool) → Phase E T
  returned : Result E T → Phase E T

module _ {W E T : Type 0} (observe : W → Result E (Option T)) where
  unfoldable pub observed : Result E (Option T) → Bool → Phase E T
  observed (ok (some value)) notified = returned (ok value)
  observed (ok none) notified = waiting notified
  observed (err why) notified = returned (err why)

  -- One turn of `on_change`: it enables its waiter, observes, and awaits the notification.
  unfoldable pub turn : W → Phase E T → Phase E T
  unfolding observed
  turn w starting = enabled false
  turn w (enabled notified) = observed (observe w) notified
  turn w (waiting true) = starting
  turn w (waiting false) = waiting false
  turn w (returned result) = returned result

-- `notify_waiters`
unfoldable pub notify : {E T : Type 0} → Phase E T → Phase E T
notify starting = starting
notify (enabled notified) = enabled true
notify (waiting notified) = waiting true
notify (returned result) = returned result
