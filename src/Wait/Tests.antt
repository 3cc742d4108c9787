-- ===== src/Wait/Tests.antt =====
-- Waits of core/src/wait.rs: a retry that fails twice, and a waiter that is notified.
use redsuite.Prelude.{
  ℕ, ◌+◌, ◌/◌, ◌≡◌, refl, Option, none, some, String, Result, ok, err, arith, if◌then◌else◌, ltb,
}
use redsuite.Wait.{Attempt, retry_every, starting, returned, notify, turn}
use redsuite.Wait.Retry.{Returns, retry_every-Returns}
use redsuite.Wait.Wakeup.{Shared, Reach, begin, next, changes, turn-Settles}

abbrev third_time : ℕ → Attempt String ℕ
third_time n = record { result = if ltb n 2 then err "not yet" else ok n; took = 10; lag = 1 }

retry_every-Returns_example :
    Returns third_time 200 1000
      (1000 / 200 + 2)
      0
      (retry_every third_time 1000 200 (1000 / 200 + 2) 0)
retry_every-Returns_example = retry_every-Returns third_time 1000 200 0 (omega arith)

third_attempt :
    retry_every third_time 1000 200 7 0 ≡ some (record { result = ok 2; attempts = 3; now = 432 })
unfolding retry_every
third_attempt = refl

abbrev above_three : ℕ → Result String (Option ℕ)
above_three n = if ltb 3 n then ok (some n) else ok none

abbrev raised : Shared ℕ String ℕ
raised = record { world = 5; phase = starting }

raised-Reach : Reach above_three raised
unfolding notify
raised-Reach = next (begin 1) (changes (record { world = 1; phase = starting }) 5)

turn-Settles_example :
    turn above_three 5 (turn above_three 5 (turn above_three 5 starting)) ≡ returned (ok 5)
turn-Settles_example = turn-Settles above_three 5 raised-Reach refl tt
