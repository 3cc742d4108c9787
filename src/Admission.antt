-- ===== src/Admission.antt =====
-- core/src/transport/rate.rs: `AdmissionStats`, the admissions of a run counted by the second. An
-- `Instant` is counted in nanoseconds, and the clock is the argument `now`. `none` is the panic of a
-- duration below zero.
pub mod Seconds
mod Tests
use redsuite.Prelude.{
  ℕ, zero, suc, ◌+◌, ◌-◌, ◌*◌, ◌/◌, Bool, true, Option, none, some, ltb, leb, eqb, ◌&&◌, ◌||◌,
  if◌then◌else◌,
}
use redsuite.Rate.{one_sec}
use redsuite.Stats.{Floats, Rng, ObservationsStats, Stats, push, finalize}
use redsuite.Stats as S

abbrev pub tail_bucket_min : ℕ
tail_bucket_min = 500_000_000

pub record AdmissionStats (Summary : Type 0) : Type 0 where
  pub origin : ℕ
  pub bucket : ℕ
  pub count : ℕ
  pub rps : Summary

-- The second of the run that an instant lies in.
abbrev pub second : ℕ → ℕ → ℕ
second origin now = (now - origin) / one_sec

module _ (f : Floats) (r : Rng f) where
  abbrev pub Admissions : Type 0
  Admissions = AdmissionStats (Stats f r)

  -- `AdmissionStats::new`, with the seed of the summary
  unfoldable pub start : ℕ → r.Seed → Admissions
  start now seed = record { origin = now; bucket = 0; count = 0; rps = S.new f r seed }

  -- The loop of `record`, for the seconds that have passed since the bucket's.
  unfoldable pub advance : ℕ → Admissions → Admissions
  advance zero s = s
  advance (suc passed) s =
      advance passed (record s { rps = push f r s.rps s.count; count = 0; bucket = suc s.bucket })

  -- `AdmissionStats::record`
  unfoldable pub admit : Admissions → ℕ → Admissions
  unfolding advance
  admit s now =
      let t = advance (second s.origin now - s.bucket) s in record t { count = t.count + 1 }

  -- The summary with the figure of the last second, which a short tail is left out of.
  unfoldable pub closed : (ℕ → f.F) → Admissions → ℕ → Stats f r
  closed secs s tail =
      if ltb 0 s.count && (eqb s.bucket 0 || leb tail_bucket_min tail)
      then push f r s.rps (f.to_u32 (f.div (f.of_nat s.count) (secs tail)))
      else s.rps

  -- `AdmissionStats::finish`, with a duration in seconds as a real
  unfoldable pub finish : (ℕ → f.F) → Admissions → ℕ → Option ObservationsStats
  unfolding closed
  finish secs s now =
      if leb (s.bucket * one_sec) (now - s.origin)
      then finalize f r (closed secs s (now - s.origin - s.bucket * one_sec)) true
      else none
