-- ===== src/Runner/Schedule.antt =====
-- core/src/runner/mod.rs: a run of the driver, through any order in which the branches of its loops can be
-- taken.
use redsuite.Prelude.{ℕ, ◌<◌, ◌≤◌, ◌≡◌, Bool, true, [], String, ok, contains, nat_eq, length}
use redsuite.Rate.{Pacing}
use redsuite.Stats.{Floats, Rng}
use redsuite.Runner.{Encounter, run_job}
use redsuite.Runner.Jobs.{is_some}
use redsuite.Runner.Driver.{
  Completion, Signal, stopped, deciding, selecting, draining, Driver, begin, leave, decide,
  complete, report, admit_next, drain, finish_run, give_up,
}

module _ (f : Floats) (r : Rng f) (secs : ℕ → f.F) (completion : Completion) (pacing : Pacing)
    (concurrency : ℕ) (origin : String) (syncs : Bool) where
  -- A step is enabled as the branch that it takes is. A job in flight ran from its admission, with a
  -- sync to wait for where the run has one.
  pub data Step : Driver f r → Driver f r → Type 0 where
    decides :
        (d : Driver f r) (s : Signal) → d.stage ≡ deciding → Step d (decide f r secs completion s d)
    stops :
        (d : Driver f r) (s : Signal)
        → d.stage ≡ selecting
        → stopped completion s ≡ true
        → Step d (leave f r secs s.now d)
    completes :
        (d : Driver f r) (id admitted now : ℕ) (e : Encounter)
        → d.stage ≡ selecting
        → contains d.jobs id ≡ true
        → is_some e.sync ≡ syncs
        → Step d (complete f r id (run_job admitted e) now d)
    reports :
        (d : Driver f r) (seed : r.Seed) (now : ℕ)
        → d.stage ≡ selecting
        → Step d (report f r secs seed now d)
    admits :
        (d : Driver f r) (s : Signal)
        → d.stage ≡ selecting
        → length d.jobs < concurrency
        → Step d (admit_next f r secs completion s d)
    drains :
        (d : Driver f r) (id admitted : ℕ) (e : Encounter)
        → d.stage ≡ draining
        → contains d.jobs id ≡ true
        → is_some e.sync ≡ syncs
        → Step d (drain f r id (run_job admitted e) d)
    finishes :
        (d : Driver f r) (now : ℕ)
        → d.stage ≡ draining
        → d.jobs ≡ []
        → Step d (finish_run f r now d)
    gives_up :
        (d : Driver f r) (now : ℕ)
        → d.stage ≡ draining
        → d.drain_deadline ≤ now
        → Step d (give_up f r d)

  pub data Reach : Driver f r → Type 0 where
    starts :
        (seed : r.Seed) (now : ℕ) (d : Driver f r)
        → begin f r pacing concurrency origin syncs seed now ≡ ok d
        → Reach d
    next : {d d' : Driver f r} → Reach d → Step d d' → Reach d'
