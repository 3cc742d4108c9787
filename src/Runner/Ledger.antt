-- ===== src/Runner/Ledger.antt =====
-- core/src/runner/mod.rs: the books of a run, over the jobs that its driver has admitted.
use redsuite.Prelude.{
  ℕ, suc, ◌+◌, ◌≤◌, ◌<◌, ◌≡◌, refl, subst, inl, inr, Bool, true, false, not, ◌||◌, ◌&&◌, ◌-◌, [],
  String, Result, ok, err, ensure, arith, if◌then◌else◌, eqb, leb, ltb, Bool-cases, contains,
  nat_eq, length, >>=-eq-ok,
}
use redsuite.Rate.{Pacing, Pacer}
use redsuite.Rate as Rate
use redsuite.Stats as S
use redsuite.Stats.{Floats, Rng, Stats}
use redsuite.Runner.{Encounter, fresh, run_job, record_job}
use redsuite.Runner.Jobs.{is_some}
use redsuite.Runner.Tallies.{run_job-Consistent, IsTally, record_job-Recorded, fresh-IsTally}
use redsuite.Runner.Driver.{
  Completion, Signal, done, selecting, ended, network_timeout, Driver, begun, begin, begin_with,
  no_concurrency, leave, decide, complete, report, admit_next, drain, finish_run, give_up,
}
use redsuite.Runner.Schedule.{
  Step, decides, stops, completes, reports, admits, drains, finishes, gives_up, Reach, starts, next,
}
use redsuite.Runner.Flight.{
  Descending, others, others-Descending, length-others, WithinTotal, within-suc, within-zero,
}

module _ (f : Floats) (r : Rng f) (completion : Completion) (concurrency : ℕ) (syncs : Bool) where
  pub record Ledger (d : Driver f r) : Type 0 where
    pub balanced : d.tally.delivered + d.tally.failed + length d.jobs ≡ d.admitted
    pub capped : length d.jobs ≤ concurrency
    pub within : WithinTotal completion d.admitted
    pub numbered : Descending (suc d.admitted) d.jobs
    pub tally : IsTally f r syncs d.tally
    pub drained : d.stage ≡ ended (ok tt) → (d.jobs ≡ []) × (d.stalled ≡ false)

module _ (f : Floats) (r : Rng f) (secs : ℕ → f.F) (completion : Completion) (pacing : Pacing)
    (concurrency : ℕ) (origin : String) (syncs : Bool) where
  abbrev Books : Driver f r → Type 0
  Books = Ledger f r completion concurrency syncs

  leave-Ledger : (now : ℕ) (d : Driver f r) → Books d → Books (leave f r secs now d)
  unfolding leave
  leave-Ledger now d v = record {
    balanced = v.balanced;
    capped = v.capped;
    within = v.within;
    numbered = v.numbered;
    tally = v.tally;
    drained = λ e. absurd (cc);
  }

  decide-Ledger : (s : Signal) (d : Driver f r) → Books d → Books (decide f r secs completion s d)
  unfolding decide
  decide-Ledger s d v = elim (Bool-cases (done completion s d.admitted)) [
    | inl over ↦ rw (over, if◌then◌else◌) (leave-Ledger s.now d v)
    | inr more ↦
        rw (more, if◌then◌else◌)
          record {
            balanced = v.balanced;
            capped = v.capped;
            within = v.within;
            numbered = v.numbered;
            tally = v.tally;
            drained = λ e. absurd (cc);
          }
  ]

  admit_next-Ledger :
      (s : Signal) (d : Driver f r)
      → length d.jobs < concurrency
      → Books d
      → Books (admit_next f r secs completion s d)
  unfolding admit_next
  admit_next-Ledger s d room v = elim (Bool-cases (done completion s d.admitted)) [
    | inl over ↦ rw (over, if◌then◌else◌) (leave-Ledger s.now d v)
    | inr more ↦
        rw (more, if◌then◌else◌)
          record {
            balanced = omega (arith, v.balanced);
            capped = omega arith;
            within = within-suc completion s d.admitted more;
            numbered = (omega arith, v.numbered);
            tally = v.tally;
            drained = λ e. absurd (cc);
          }
  ]

  either-Ledger : (b : Bool) (d d' : Driver f r) → Books d → Books d' → Books (if b then d else d')
  either-Ledger true d d' v v' = v
  either-Ledger false d d' v v' = v'

  report-Ledger :
      (seed : r.Seed) (now : ℕ) (d : Driver f r)
      → d.stage ≡ selecting
      → Books d
      → Books (report f r secs seed now d)
  unfolding report
  report-Ledger seed now d at v =
      let stuck = ltb 0 (length d.jobs) && leb network_timeout (now - d.last_completion) in
      let d' : Driver f r = record d { window = S.new f r seed; stalled = d.stalled || stuck } in
      let v' : Books d' = record {
        balanced = v.balanced;
        capped = v.capped;
        within = v.within;
        numbered = v.numbered;
        tally = v.tally;
        drained = λ e. absurd (cc);
      } in
      either-Ledger stuck (leave f r secs now d') d' (leave-Ledger now d' v') v'

  -- A job that completes leaves the books, in the loop and in the drain.
  recorded-Ledger :
      (d : Driver f r) (id admitted now : ℕ) (e : Encounter) (window : Stats f r)
      → contains d.jobs id ≡ true
      → is_some e.sync ≡ syncs
      → (d.stage ≡ ended (ok tt) → ⊥)
      → Books d
      → Books (record d {
        window = window;
        last_completion = now;
        tally = record_job f r (run_job admitted e) d.tally;
        jobs = others id d.jobs;
      })
  recorded-Ledger d id admitted now e window held synced running v =
      let c = run_job-Consistent admitted e syncs synced in
      let step = record_job-Recorded f r syncs (run_job admitted e) d.tally c v.tally in
      let fewer = length-others (suc d.admitted) id d.jobs v.numbered held in
      record {
        balanced = omega (arith, fewer, step.one_more, v.balanced);
        capped = omega (arith, fewer, v.capped);
        within = v.within;
        numbered = others-Descending (suc d.admitted) id d.jobs v.numbered;
        tally = step.tally;
        drained = λ ended_. absurd (running ended_);
      }

  finish_run-Ledger :
      (now : ℕ) (d : Driver f r) → d.jobs ≡ [] → Books d → Books (finish_run f r now d)
  unfolding finish_run
  finish_run-Ledger now d idle v = record {
    balanced = v.balanced;
    capped = v.capped;
    within = v.within;
    numbered = v.numbered;
    tally = v.tally;
    drained = λ e. (idle, ground arith);
  }

  give_up-Ledger : (d : Driver f r) → Books d → Books (give_up f r d)
  unfolding give_up
  give_up-Ledger d v = record {
    balanced = v.balanced;
    capped = v.capped;
    within = v.within;
    numbered = v.numbered;
    tally = v.tally;
    drained = λ e. absurd (ground arith);
  }

  begun-Ledger :
      (pacer : Pacer) (seed : r.Seed) (now : ℕ) → Books (begun f r pacer origin syncs seed now)
  unfolding fresh
  begun-Ledger pacer seed now = record {
    balanced = refl;
    capped = omega arith;
    within = within-zero completion;
    numbered = tt;
    tally = fresh-IsTally f r origin syncs seed;
    drained = λ e. absurd (cc);
  }

  begin_with-Ledger :
      (p : Result Rate.Error Pacer) (seed : r.Seed) (now : ℕ) (d : Driver f r)
      → begin_with f r p origin syncs seed now ≡ ok d
      → Books d
  unfolding begin_with
  begin_with-Ledger (ok pacer) seed now d e =
      let at : begun f r pacer origin syncs seed now ≡ d = cc in
      subst Books at (begun-Ledger pacer seed now)
  begin_with-Ledger (err why) seed now d e = absurd (cc)

  begin-Ledger :
      (seed : r.Seed) (now : ℕ) (d : Driver f r)
      → begin f r pacing concurrency origin syncs seed now ≡ ok d
      → Books d
  unfolding begin
  begin-Ledger seed now d e =
      let (u, above, rest) =
        >>=-eq-ok (ensure (not (eqb concurrency 0)) no_concurrency)
          (λ _. begin_with f r (Rate.new pacing now) origin syncs seed now) e in
      begin_with-Ledger (Rate.new pacing now) seed now d rest

  Step-Ledger :
      {d d' : Driver f r}
      → Step f r secs completion pacing concurrency origin syncs d d'
      → Books d
      → Books d'
  unfolding complete drain
  Step-Ledger (decides d s at) v = decide-Ledger s d v
  Step-Ledger (stops d s at over) v = leave-Ledger s.now d v
  Step-Ledger (completes d id admitted now e at held synced) v =
      recorded-Ledger d id admitted now e _ held synced (λ over. absurd (cc)) v
  Step-Ledger (reports d seed now at) v = report-Ledger seed now d at v
  Step-Ledger (admits d s at room) v = admit_next-Ledger s d room v
  Step-Ledger (drains d id admitted e at held synced) v =
      recorded-Ledger d id admitted d.last_completion e d.window held synced (λ over. absurd (cc)) v
  Step-Ledger (finishes d now at idle) v = finish_run-Ledger now d idle v
  Step-Ledger (gives_up d now at late) v = give_up-Ledger d v

  -- In every state that a run can reach: each admitted job is delivered, failed or in flight, once; the
  -- jobs in flight are at most the concurrency and have numbers of their own; no more jobs are
  -- admitted than the iterations asked for; the tally's counts are those of the jobs recorded; and a
  -- run that has ended well has nothing in flight and was not stalled.
  pub Reach-Ledger :
      {d : Driver f r} → Reach f r secs completion pacing concurrency origin syncs d → Books d
  Reach-Ledger (starts seed now d e) = begin-Ledger seed now d e
  Reach-Ledger (next reach step) = Step-Ledger step (Reach-Ledger reach)
