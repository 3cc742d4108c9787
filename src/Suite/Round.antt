-- ===== src/Suite/Round.antt =====
-- cli/src/suite/continuous.rs: one round of the continuous suite. The cases of a round are run with at
-- most a limit of them at a time, and a case of an exclusive entry runs alone.
use redsuite.Prelude.{
  ℕ, ◌-◌, ◌<◌, ◌≤◌, ◌≡◌, ◌≢◌, ◌⊎◌, Bool, true, false, List, [], ◌∷◌, ◌++◌, String, if◌then◌else◌,
  length,
}
use redsuite.Suite.{Family, Er, shared, exclusive, fresh, ScenarioEntry, name, RunRecord, passed}

pub record Case : Type 0 where
  pub family : Family
  pub entry : ScenarioEntry

abbrev pub is_exclusive_er : Er → Bool
is_exclusive_er (exclusive label) = true
is_exclusive_er (shared label) = false
is_exclusive_er fresh = false

abbrev pub is_exclusive : Case → Bool
is_exclusive c = is_exclusive_er c.entry.er

-- Where `run_round` stands: it takes the next case, makes room for a case, waits for the exclusive case
-- that it started, waits for the last cases, or is over.
pub data Stage : Type 0 where
  choosing : Stage
  making_room : Case → Stage
  alone ending over : Stage

pub record Round : Type 0 where
  pub stage : Stage
  pub cases : List Case
  pub running : List Case
  pub failed : List String

unfoldable pub begin_round : List Case → Round
begin_round cases = record { stage = choosing; cases = cases; running = []; failed = [] }

-- How many cases `settle` leaves running.
unfoldable pub keep_beside : ℕ → Case → ℕ
keep_beside limit c = if is_exclusive c then 0 else limit - 1

unfoldable pub choose : Case → List Case → Round → Round
choose c rest r = record r { stage = making_room c; cases = rest }

-- A record that `settle` takes.
unfoldable pub settle_record : List Case → RunRecord → Round → Round
settle_record others found r = record r {
  running = others;
  failed = if passed found then r.failed else r.failed ++ found.name ∷ [];
}

-- `running.push(entry.run(…))`
unfoldable pub start_case : Case → Round → Round
start_case c r = record r {
  stage = if is_exclusive c then alone else choosing;
  running = r.running ++ c ∷ [];
}

unfoldable pub go_to : Stage → Round → Round
go_to stage r = record r { stage = stage }

module _ (limit : ℕ) where
  -- How many cases the present call of `settle` leaves running.
  pub data Settling : Stage → ℕ → Type 0 where
    for_case : (c : Case) → Settling (making_room c) (keep_beside limit c)
    for_exclusive : Settling alone 0
    for_end : Settling ending 0

  -- `stopped` is what the configuration shows of an interruption at the moment.
  pub data RoundStep : Round → Round → Type 0 where
    chooses :
        (r : Round) (c : Case) (rest : List Case)
        → r.stage ≡ choosing
        → r.cases ≡ c ∷ rest
        → RoundStep r (choose c rest r)
    settles :
        (r : Round) (keep : ℕ) (before : List Case) (c : Case) (after : List Case)
        (found : RunRecord)
        → Settling r.stage keep
        → keep < length r.running
        → r.running ≡ before ++ c ∷ after
        → found.name ≡ name c.family c.entry
        → RoundStep r (settle_record (before ++ after) found r)
    starts :
        (r : Round) (c : Case)
        → r.stage ≡ making_room c
        → length r.running ≤ keep_beside limit c
        → r.failed ≡ []
        → RoundStep r (start_case c r)
    breaks :
        (r : Round) (c : Case) (stopped : Bool)
        → r.stage ≡ making_room c
        → length r.running ≤ keep_beside limit c
        → (r.failed ≢ []) ⊎ (stopped ≡ true)
        → RoundStep r (go_to ending r)
    resumes : (r : Round) → r.stage ≡ alone → r.running ≡ [] → RoundStep r (go_to choosing r)
    runs_out : (r : Round) → r.stage ≡ choosing → r.cases ≡ [] → RoundStep r (go_to ending r)
    finishes : (r : Round) → r.stage ≡ ending → r.running ≡ [] → RoundStep r (go_to over r)

  pub data RoundReach (cases : List Case) : Round → Type 0 where
    first : RoundReach cases (begin_round cases)
    then_step : {r r' : Round} → RoundReach cases r → RoundStep r r' → RoundReach cases r'
