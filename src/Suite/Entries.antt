-- ===== src/Suite/Entries.antt =====
-- cli/src/suite/mod.rs: `Suite::run_entries`, which starts entries up to a limit, collects the records of
-- those that end, in whatever order, and marks the rest as not run.
use redsuite.Prelude.{
  ℕ, suc, ◌+◌, ◌<◌, ◌≤◌, ◌≡◌, ◌⊎◌, Bool, true, false, not, ◌&&◌, ◌||◌, List, [], ◌∷◌, ◌++◌, map,
  if◌then◌else◌, length,
}
use redsuite.Suite.{Family, ScenarioEntry, name, RunRecord, passed, not_run}

-- Where the loop stands: it starts entries, waits for one to end, or is over.
pub data Stage : Type 0 where
  starting waiting over : Stage

-- `finished` is the suite's count of progress, which all its runs of entries share.
pub record Entries : Type 0 where
  pub stage : Stage
  pub pending : List ScenarioEntry
  pub running : List ScenarioEntry
  pub records : List RunRecord
  pub failed : Bool
  pub finished : ℕ

-- The start of a run, with the progress that the suite has made.
unfoldable pub begin : ℕ → List ScenarioEntry → Entries
begin finished entries = record {
  stage = starting;
  pending = entries;
  running = [];
  records = [];
  failed = false;
  finished = finished;
}

-- `scenario_finished`
unfoldable pub scenario_finished : Entries → Entries
scenario_finished e = record e { finished = e.finished + 1 }

-- `running.push(entry.run(…))`, with the entry taken from the pending ones.
unfoldable pub launch : ScenarioEntry → List ScenarioEntry → Entries → Entries
launch entry rest e = record e { pending = rest; running = e.running ++ entry ∷ [] }

unfoldable pub wait_for_end : Entries → Entries
wait_for_end e = record e { stage = waiting }

-- A running entry has ended with a record.
unfoldable pub collect : Bool → List ScenarioEntry → RunRecord → Entries → Entries
unfolding scenario_finished
collect stop_on_failure others r e = record (scenario_finished e) {
  stage = starting;
  running = others;
  failed = e.failed || (stop_on_failure && not (passed r));
  records = e.records ++ r ∷ [];
}

-- Nothing runs any more: the pending entries are marked.
unfoldable pub mark_rest : Family → Bool → Entries → Entries
mark_rest family stopped e = record e {
  stage = over;
  pending = [];
  finished = e.finished + length e.pending;
  records =
      e.records
      ++ map
          (not_run family
            (if stopped then "run interrupted" else "earlier scenario in this ER group failed"))
          e.pending;
}

module _ (family : Family) (limit : ℕ) (stop_on_failure : Bool) where
  -- `stopped` is what the configuration shows of an interruption at the moment.
  pub data Step : Entries → Entries → Type 0 where
    launches :
        (e : Entries) (entry : ScenarioEntry) (rest : List ScenarioEntry) (stopped : Bool)
        → e.stage ≡ starting
        → e.failed ≡ false
        → stopped ≡ false
        → length e.running < limit
        → e.pending ≡ entry ∷ rest
        → Step e (launch entry rest e)
    waits :
        (e : Entries) (stopped : Bool)
        → e.stage ≡ starting
        → (e.failed ≡ true) ⊎ ((stopped ≡ true) ⊎ ((limit ≤ length e.running) ⊎ (e.pending ≡ [])))
        → Step e (wait_for_end e)
    collects :
        (e : Entries) (before : List ScenarioEntry) (entry : ScenarioEntry)
        (after : List ScenarioEntry) (r : RunRecord)
        → e.stage ≡ waiting
        → e.running ≡ before ++ entry ∷ after
        → r.name ≡ name family entry
        → Step e (collect stop_on_failure (before ++ after) r e)
    marks :
        (e : Entries) (stopped : Bool)
        → e.stage ≡ waiting
        → e.running ≡ []
        → Step e (mark_rest family stopped e)

  -- The states that a number of steps leads to, from the progress that the suite had made at the start. Meanwhile
  -- the other lanes of the suite finish a number of scenarios.
  pub data Reach (finished : ℕ) (entries : List ScenarioEntry) : ℕ → ℕ → Entries → Type 0 where
    start : Reach finished entries 0 0 (begin finished entries)
    next :
        {others n : ℕ} {e e' : Entries}
        → Reach finished entries others n e
        → Step e e'
        → Reach finished entries others (suc n) e'
    meanwhile :
        {others n : ℕ} {e : Entries}
        → Reach finished entries others n e
        → Reach finished entries (suc others) n (scenario_finished e)
