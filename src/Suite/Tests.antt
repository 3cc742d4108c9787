-- ===== src/Suite/Tests.antt =====
-- A suite of cli/src/suite/mod.rs with scenarios of one group and one without.
use redsuite.Prelude.{
  ℕ, ◌+◌, ◌*◌, ◌≤◌, ◌≡◌, ◌≢◌, ◌↔◌, refl, inr, some, Result, false, List, [], ◌∷◌, none, ok, map,
  retain, length, arith, ◌==◌, string_eq, String, All, true,
}
use redsuite.Suite.{
  redhat, Er, shared, exclusive, fresh, ScenarioEntry, Lane, RunRecord, lanes, sort_by_order, name,
  not_run,
}
use redsuite.Suite.Lanes.{entries_of, Distinct, label, lanes-Split}
use redsuite.Suite.Entries.{
  Entries, begin, over, scenario_finished, launch, collect, wait_for_end, Reach, start, next,
  meanwhile, launches, waits, collects,
}
use redsuite.Suite.Progress.{CanStep, Reach-ends}
use redsuite.Suite.Accounted.{IsAccounted, Reach-IsAccounted, occurs, record_name, names-not_run}
use redsuite.Suite.Outcome.{finish, Succeeded, finish-ok_iff, entry_records, SuiteError}
use redsuite.Suite.Complete.{RunsAll, entry_records-names}
use redsuite.Suite.Round.{
  Case, Round, begin_round, keep_beside, choose, start_case, RoundReach, first, then_step, chooses,
  starts,
}
use redsuite.Suite.Alone.{IsFair, Reach-IsFair}

abbrev entry : String → Er → ℕ → ScenarioEntry
entry n er order = record {
  short_name = n;
  er = er;
  explicit_only = false;
  order = order;
  prepare = none;
}

abbrev entries : List ScenarioEntry
entries =
    entry "fees" (shared "default") 0
    ∷ entry "restart" fresh 1
    ∷ entry "reset" (exclusive "default") 0
    ∷ []

lanes-Split_example :
    Distinct (lanes entries)
    × (entries_of "default" (lanes entries)
        ≡ retain (λ e. label e == "default") (sort_by_order entries))
lanes-Split_example = lanes-Split entries "default"

abbrev good : RunRecord
good = record { name = "redhat/fees"; outcome = ok tt; phase = "scenario"; report = none }

-- The run of one entry, while another lane finishes a scenario: five of the suite were finished at the start.
abbrev fees : ScenarioEntry
fees = entry "fees" (shared "default") 0

abbrev launched : Entries
launched = launch fees [] (begin 5 (fees ∷ []))

abbrev recorded : Entries
recorded = collect true [] good (scenario_finished (wait_for_end launched))

recorded-Reach : Reach redhat 2 true 5 (fees ∷ []) 1 3 recorded
unfolding begin launch wait_for_end scenario_finished collect name
recorded-Reach =
    next
      (meanwhile (
        next
          (next start
            (launches (begin 5 (fees ∷ [])) fees [] false refl refl refl (omega arith) refl))
          (waits launched false refl (inr (inr (inr refl))))))
      (collects (scenario_finished (wait_for_end launched)) [] fees [] good refl refl refl)

Reach-ends_example : (3 ≤ 3 * 1 + 2) × (recorded.stage ≢ over → CanStep redhat 2 true recorded)
Reach-ends_example = Reach-ends redhat 2 true recorded-Reach

Reach-IsAccounted_example : IsAccounted redhat 2 true "redhat/fees" 5 (fees ∷ []) 1 recorded
Reach-IsAccounted_example = Reach-IsAccounted redhat 2 true "redhat/fees" recorded-Reach

finish-ok_iff_example :
    (finish (good ∷ []) (ok tt) ≡ ok tt)
    ↔ (All Succeeded (good ∷ []) × (◌≡◌ {A = Result SuiteError (Unit {0})} (ok tt) (ok tt)))
finish-ok_iff_example = finish-ok_iff (good ∷ []) (ok tt)

-- Every entry is skipped.
abbrev skip_all : List ScenarioEntry → ℕ → List RunRecord
skip_all es limit = map (not_run redhat "skipped") es

skip_all-RunsAll : RunsAll redhat skip_all
skip_all-RunsAll es limit n = names-not_run redhat n "skipped" es

abbrev default_lane : Lane
default_lane = record { label = "default"; group = some "default"; entries = entries }

entry_records-names_example :
    occurs "redhat/fees" (map record_name (entry_records redhat false skip_all 1 2 default_lane))
    ≡ occurs "redhat/fees" (map (name redhat) entries)
entry_records-names_example =
    entry_records-names redhat false skip_all skip_all-RunsAll "redhat/fees" 1 2 default_lane

abbrev resetting : Case
resetting = record { family = redhat; entry = entry "reset" (exclusive "default") 0 }

abbrev chosen : Round
chosen = choose resetting [] (begin_round (resetting ∷ []))

resetting-RoundReach : RoundReach 2 (resetting ∷ []) (start_case resetting chosen)
unfolding begin_round choose keep_beside
resetting-RoundReach =
    then_step (then_step first (chooses (begin_round (resetting ∷ [])) resetting [] refl refl))
      (starts chosen resetting refl (omega arith) refl)

Reach-IsFair_example :
    IsFair (start_case resetting chosen).running
    × (length (start_case resetting chosen).running ≤ 2)
Reach-IsFair_example = Reach-IsFair 2 (omega arith) resetting-RoundReach
