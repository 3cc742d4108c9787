-- ===== src/Runner/Driver.antt =====
-- core/src/runner/mod.rs: the driver of a run, `execute_inner`, as the parts of its loop between its
-- waits. The select takes any branch that is ready, and so its branches are functions here. Jobs in
-- flight are known by their numbers.
use redsuite.Prelude.{
  ℕ, suc, ◌+◌, ◌-◌, Bool, false, not, ◌&&◌, ◌||◌, List, [], ◌∷◌, Option, none, some, String, Result,
  ok, err, ensure, ◌>>◌, if◌then◌else◌, eqb, leb, ltb, length, retain,
}
use redsuite.Rate.{Pacing, Pacer, wait}
use redsuite.Rate as Rate
use redsuite.Stats.{Floats, Rng, ObservationsStats, Stats, push, finalize, default_stats}
use redsuite.Stats as S
use redsuite.Admission.{Admissions, start, admit}
use redsuite.Admission as Admission
use redsuite.Runner.{Job, Raw, fresh, push_some, record_job}

-- `NETWORK_TIMEOUT`
abbrev pub network_timeout : ℕ
network_timeout = 60_000_000_000

pub data Completion : Type 0 where
  iterations : (total : ℕ) → (until : Option ℕ) → Completion
  until : (deadline : Option ℕ) → Completion

-- The clock, and what the channel that stops a run shows.
pub record Signal : Type 0 where
  pub now : ℕ
  pub stop : Bool
  pub closed : Bool

abbrev pub past : Option ℕ → ℕ → Bool
past none now = false
past (some deadline) now = leb deadline now

-- `Completion::done`
unfoldable pub done : Completion → Signal → ℕ → Bool
done (iterations total none) s admitted = leb total admitted
done (iterations total (some deadline)) s admitted =
    leb total admitted || (leb deadline s.now || s.stop || s.closed)
done (until deadline) s admitted = past deadline s.now || s.stop || s.closed

-- Whether the wait of `Completion::stopped` is over: a closed channel ends it too.
unfoldable pub stopped : Completion → Signal → Bool
stopped (iterations total none) s = false
stopped (iterations total (some deadline)) s = s.stop || s.closed || leb deadline s.now
stopped (until deadline) s = s.stop || s.closed || past deadline s.now

pub data RunError : Type 0 where
  no_concurrency not_drained stalled_work : RunError
  bad_rate : Rate.Error → RunError

pub data Stage : Type 0 where
  deciding selecting draining : Stage
  ended : Result RunError (Unit {0}) → Stage

module _ (f : Floats) (r : Rng f) where
  pub record Driver : Type 0 where
    pub stage : Stage
    pub pacer : Pacer
    pub stats : Admissions f r
    pub tally : Raw f r
    pub jobs : List ℕ
    pub admitted : ℕ
    pub window : Stats f r
    pub last_completion : ℕ
    pub stalled : Bool
    pub started : ℕ
    pub admission_wall : ℕ
    pub rps : Option ObservationsStats
    pub drain_deadline : ℕ
    pub wall : ℕ

  abbrev pub begun : Pacer → String → Bool → r.Seed → ℕ → Driver
  begun pacer origin syncs seed now = record {
    stage = deciding;
    pacer = pacer;
    stats = start f r now seed;
    tally = fresh f r origin syncs seed;
    jobs = [];
    admitted = 0;
    window = S.new f r seed;
    last_completion = now;
    stalled = false;
    started = now;
    admission_wall = 0;
    rps = none;
    drain_deadline = 0;
    wall = 0;
  }

  unfoldable pub begin_with :
      Result Rate.Error Pacer → String → Bool → r.Seed → ℕ → Result RunError Driver
  begin_with (err why) origin syncs seed now = err (bad_rate why)
  begin_with (ok pacer) origin syncs seed now = ok (begun pacer origin syncs seed now)

  -- `execute_inner` up to its loop.
  unfoldable pub begin : Pacing → ℕ → String → Bool → r.Seed → ℕ → Result RunError Driver
  unfolding begin_with
  begin pacing concurrency origin syncs seed now =
      ensure (not (eqb concurrency 0)) no_concurrency
      >> begin_with (Rate.new pacing now) origin syncs seed now

  -- The loop is left: the drain begins.
  unfoldable pub leave : (ℕ → f.F) → ℕ → Driver → Driver
  leave secs now d = record d {
    stage = draining;
    admission_wall = now - d.started;
    rps = Admission.finish f r secs d.stats now;
    drain_deadline = now + network_timeout;
  }

  -- The head of the loop: done, or a wait of the pacer and the select.
  unfoldable pub decide : (ℕ → f.F) → Completion → Signal → Driver → Driver
  unfolding leave
  decide secs completion s d =
      if done completion s d.admitted
      then leave secs s.now d
      else record d { pacer = (wait d.pacer s.now).0; stage = selecting }

  -- A job in flight has completed, in the loop.
  unfoldable pub complete : ℕ → Job → ℕ → Driver → Driver
  complete id job now d = record d {
    window = push_some f r d.window job.delivery;
    last_completion = now;
    tally = record_job f r job d.tally;
    jobs = retain (λ j. not (eqb j id)) d.jobs;
  }

  -- The tick of the report: the load of the interval is logged, and a run that completes nothing
  -- while jobs are in flight is left.
  unfoldable pub report : (ℕ → f.F) → r.Seed → ℕ → Driver → Driver
  unfolding leave
  report secs seed now d =
      let stuck = ltb 0 (length d.jobs) && leb network_timeout (now - d.last_completion) in
      let d' = record d { window = S.new f r seed; stalled = d.stalled || stuck } in
      if stuck then leave secs now d' else d'

  -- The pacing tick: the run may be done, or one more job is admitted.
  unfoldable pub admit_next : (ℕ → f.F) → Completion → Signal → Driver → Driver
  unfolding leave
  admit_next secs completion s d =
      if done completion s d.admitted then leave secs s.now d else record d {
        stats = admit f r d.stats s.now;
        admitted = suc d.admitted;
        last_completion = if eqb (length d.jobs) 0 then s.now else d.last_completion;
        jobs = suc d.admitted ∷ d.jobs;
        stage = deciding;
      }

  -- A job in flight has completed, in the drain.
  unfoldable pub drain : ℕ → Job → Driver → Driver
  drain id job d = record d {
    tally = record_job f r job d.tally;
    jobs = retain (λ j. not (eqb j id)) d.jobs;
  }

  -- Nothing is in flight any more.
  unfoldable pub finish_run : ℕ → Driver → Driver
  finish_run now d = record d {
    stage = ended (ensure (not d.stalled) stalled_work);
    wall = now - d.started;
  }

  unfoldable pub give_up : Driver → Driver
  give_up d = record d { stage = ended (err not_drained) }

  -- The outcome of a run that ended well.
  unfoldable pub outcome : Pacing → ObservationsStats → Driver → Raw f r
  outcome pacing rps d = record d.tally {
    offered = pacing;
    rps = rps;
    wall = d.wall;
    admission_wall = d.admission_wall;
  }
