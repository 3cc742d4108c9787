-- ===== src/Rate.antt =====
-- core/src/transport/rate.rs: offered rates, the split of a budget over workers, and the pacer.
-- A `Duration` and an `Instant` are counted in nanoseconds. A `u32` rate and a `u64` budget are
-- plain numbers; the cast back to `u32` is written out.
pub mod Split
pub mod Shares
pub mod Schedule
mod Tests
use redsuite.Prelude.{
  ℕ, ◌+◌, ◌-◌, ◌/◌, ◌%◌, ◌^◌, max, min, Bool, List, map, Option, none, some, ltb, leb, eqb,
  if◌then◌else◌, range_from, replicate, Result, ok, err, ensure, ◌>>=◌, ◌>>◌,
}

abbrev pub one_sec : ℕ
one_sec = 1_000_000_000

abbrev pub timer_resolution : ℕ
timer_resolution = 1_000_000

abbrev pub resync_slack : ℕ
resync_slack = 5_000_000

pub data Pacing : Type 0 where
  unlimited : Pacing
  per_second : ℕ → Pacing

pub data Error : Type 0 where
  rate_not_above_zero : Error
  rate_cannot_be_split : (rate workers : ℕ) → Error
  concurrency_not_above_zero : Error

abbrev pub u32_max : ℕ
u32_max = 2 ^ 32 - 1

unfoldable pub interval : Pacing → Result Error (Option ℕ)
interval unlimited = ok none
interval (per_second rate) =
    if eqb rate 0 then err rate_not_above_zero else ok (some (one_sec / rate))

-- The share of the worker at `index`.
abbrev pub share : ℕ → ℕ → ℕ → ℕ
share base remainder index = base + (if ltb index remainder then 1 else 0)

unfoldable pub split_budget : ℕ → ℕ → List ℕ
split_budget total parts =
    map (share (total / max parts 1) (total % max parts 1)) (range_from 0 parts)

unfoldable pub partition : Pacing → ℕ → Result Error (List Pacing)
partition unlimited workers = ok (replicate workers unlimited)
partition (per_second rate) workers = do
  _ ← interval (per_second rate)
  ensure (leb workers rate) (rate_cannot_be_split rate workers)
  ok (map (λ part. per_second (part % 2 ^ 32)) (split_budget rate workers))

-- `saturating_add` on `u32`.
unfoldable pub combine : Pacing → Pacing → Pacing
combine (per_second own) (per_second other) = per_second (min (own + other) u32_max)
combine _ _ = unlimited

pub record Pacer : Type 0 where
  pub interval : Option ℕ
  pub next : ℕ

unfoldable pub new : Pacing → ℕ → Result Error Pacer
new pacing now = do step ← interval pacing; ok (record { interval = step; next = now })

-- One call of `wait` at time `now`: the new pacer, and the instant that it sleeps until, if any.
unfoldable pub wait : Pacer → ℕ → Pacer × Option ℕ
wait p now = elim p.interval [
  | none ↦ (p, none)
  | some step ↦
      if ltb now p.next
      then (
        record p { next = p.next + step },
        if leb timer_resolution (p.next - now) then some p.next else none,
      )
      else if ltb resync_slack (now - p.next)
      then (record p { next = now + step }, none)
      else (record p { next = p.next + step }, none)
]
