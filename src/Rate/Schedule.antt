-- ===== src/Rate/Schedule.antt =====
-- core/src/transport/rate.rs: the pacer over a run.
use redsuite.Prelude.{
  ℕ, ◌+◌, ◌*◌, ◌≤◌, ◌<◌, ◌≡◌, List, [], ◌∷◌, arith, Option, none, some, length, max,
}
use redsuite.Rate.{Pacer, wait, timer_resolution, resync_slack}

-- The instant at which a call of `wait` made at `now` returns at the earliest.
abbrev pub returns_at : ℕ → Option ℕ → ℕ
returns_at now none = now
returns_at now (some deadline) = max now deadline

module _ (p : Pacer) (step now : ℕ) (paced : p.interval ≡ some step) where
  -- One call of a pacer with an interval keeps the interval, takes one slot, and is released in that slot up to the timer's
  -- resolution. The next slot lies at most the resync slack behind the clock.
  pub wait-slot :
      let (q, sleep) = wait p now in
      (q.interval ≡ some step)
      × (p.next + step ≤ q.next)
      × (q.next < returns_at now sleep + step + timer_resolution)
      × (now + step ≤ q.next + resync_slack)
  unfolding wait
  wait-slot = ground arith

-- The pacer after calls made at the given times.
unfoldable pub wait_all : Pacer → List ℕ → Pacer
wait_all p [] = p
wait_all p (now ∷ later) = wait_all (wait p now).0 later

wait_all-interval :
    (p : Pacer) (step : ℕ) (nows : List ℕ)
    → p.interval ≡ some step
    → (wait_all p nows).interval ≡ some step
unfolding wait_all
wait_all-interval p step [] e = e
wait_all-interval p step (now ∷ later) e =
    wait_all-interval (wait p now).0 step later (wait-slot p step now e).0

-- However late the calls come, `n` calls take at least `n` slots.
pub wait_all-rate :
    (p : Pacer) (step : ℕ) (nows : List ℕ)
    → p.interval ≡ some step
    → p.next + length nows * step ≤ (wait_all p nows).next
unfolding wait_all
wait_all-rate p step [] e = omega arith
wait_all-rate p step (now ∷ later) e =
    let (kept, slot, _, _) = wait-slot p step now e in
    omega (arith, slot, wait_all-rate (wait p now).0 step later kept)

-- After any calls of a pacer with an interval, the next call returns less than the timer's resolution
-- before its slot, which lies at least one interval further for each call made.
pub wait_all-returns :
    (p : Pacer) (step : ℕ) (nows : List ℕ) (now : ℕ)
    → p.interval ≡ some step
    → p.next + length nows * step < returns_at now (wait (wait_all p nows) now).1 + timer_resolution
wait_all-returns p step nows now e =
    let (_, slot, release, _) =
      wait-slot (wait_all p nows) step now (wait_all-interval p step nows e) in
    omega (arith, slot, release, wait_all-rate p step nows e)
