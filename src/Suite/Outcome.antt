-- ===== src/Suite/Outcome.antt =====
-- cli/src/suite/mod.rs: the records of a lane and of a suite, and what they decide. Running some entries,
-- for which there are several orders, is the argument `run`, and what a group's teardown gives is one too.
use Prim.Native.String.{◌++◌ as ◌<>◌}
use redsuite.Prelude.{
  ℕ, ◌≡◌, ◌↔◌, refl, ap, ◌∙◌, inl, inr, Bool, true, false, not, ◌&&◌, List, [], ◌∷◌, ◌++◌, Option,
  none, some, String, ◌==◌, string_eq, Result, ok, err, ensure, ◌>>◌, ◌>>=◌, >>=-eq-ok, map, retain,
  arith, if◌then◌else◌, length, All, eqb, contains, nat_eq, Bool-cases,
}
use redsuite.Suite.{
  Family, shared, exclusive, fresh, ScenarioEntry, Lane, RunRecord, passed, not_run, failed_record,
}

abbrev pub is_shared : ScenarioEntry → Bool
is_shared entry = elim entry.er [ shared g ↦ true | exclusive g ↦ false | fresh ↦ false ]

abbrev pub all_passed : List RunRecord → Bool
all_passed [] = true
all_passed (r ∷ rs) = passed r && all_passed rs

module _ (family : Family) (serial : Bool) (run : List ScenarioEntry → ℕ → List RunRecord) where
  -- The entries of a group that run one at a time, if all the shared ones have passed.
  unfoldable pub then_exclusive : List RunRecord → List ScenarioEntry → List RunRecord
  then_exclusive records entries =
      if all_passed records
      then records ++ run entries 1
      else records ++ map (not_run family "earlier scenario in this ER group failed") entries

  -- The records of entries that do not run serially, with the concurrency of fresh and of shared
  -- scenarios, by their group.
  unfoldable pub group_records : Option String → ℕ → ℕ → List ScenarioEntry → List RunRecord
  unfolding then_exclusive
  group_records none fresh_limit shared_limit entries = run entries fresh_limit
  group_records (some g) fresh_limit shared_limit entries =
      then_exclusive (run (retain is_shared entries) shared_limit)
        (retain (λ e. not (is_shared e)) entries)

  -- The records of a lane's entries.
  unfoldable pub entry_records : ℕ → ℕ → Lane → List RunRecord
  unfolding group_records
  entry_records fresh_limit shared_limit lane =
      if serial
      then run lane.entries 1
      else group_records lane.group fresh_limit shared_limit lane.entries

  unfoldable pub cleanup_records : String → Option (Result String (Unit {0})) → List RunRecord
  cleanup_records label none = []
  cleanup_records label (some (ok u)) = []
  cleanup_records label (some (err why)) =
      failed_record ("group/" <> label <> "/cleanup") "cleanup" ("group teardown failed: " <> why)
      ∷ []

  -- `Lane::run`, with what the teardown of its group gives, if the group was booted.
  unfoldable pub run_lane : ℕ → ℕ → Option (Result String (Unit {0})) → Lane → List RunRecord
  unfolding entry_records cleanup_records
  run_lane fresh_limit shared_limit teardown lane =
      entry_records fresh_limit shared_limit lane ++ cleanup_records lane.label teardown

abbrev is_not_run : RunRecord → Bool
is_not_run r = r.phase == "not run"

abbrev is_failed : RunRecord → Bool
is_failed r = not (r.phase == "not run") && not (passed r)

pub record SuiteError : Type 0 where
  pub failed : ℕ
  pub not_run : ℕ

-- `Suite::finish`, with what the cleanup gives: the failures come before the cleanup's error.
unfoldable pub finish : List RunRecord → Result SuiteError (Unit {0}) → Result SuiteError (Unit {0})
finish records cleanup =
    let failed = length (retain is_failed records) in
    let skipped = length (retain is_not_run records) in
    ensure (eqb failed 0 && eqb skipped 0) (record { failed = failed; not_run = skipped })
    >> cleanup

-- `prepare`: the preparations of the entries in turn, each once, up to one that fails.
unfoldable pub prepare_one :
    (ℕ → Result String (Unit {0})) → Option ℕ → List ℕ → Result String (List ℕ)
prepare_one run none prepared = ok prepared
prepare_one run (some p) prepared =
    if contains prepared p then ok prepared else run p >> ok (prepared ++ p ∷ [])

unfoldable pub prepare_all :
    (ℕ → Result String (Unit {0})) → List ScenarioEntry → List ℕ → Result String (List ℕ)
unfolding prepare_one
prepare_all run [] prepared = ok prepared
prepare_all run (entry ∷ entries) prepared =
    prepare_one run entry.prepare prepared >>= λ done. prepare_all run entries done

-- A record of a scenario that ran and passed.
abbrev pub Succeeded : RunRecord → Type 0
Succeeded r = (is_not_run r ≡ false) × (passed r ≡ true)

no_failures :
    (rs : List RunRecord)
    → (length (retain is_failed rs) ≡ 0) × (length (retain is_not_run rs) ≡ 0)
    → All Succeeded rs
no_failures [] h = tt
no_failures (r ∷ rs) h = elim (Bool-cases (is_not_run r)) [
  | inl skipped ↦ absurd (ground arith)
  | inr ran ↦ elim (Bool-cases (passed r)) [
    | inl good ↦ ((ran, good), no_failures rs (ground arith))
    | inr bad ↦ absurd (ground arith)
  ]
]

Succeeded-counts :
    (rs : List RunRecord)
    → All Succeeded rs
    → (length (retain is_failed rs) ≡ 0) × (length (retain is_not_run rs) ≡ 0)
Succeeded-counts [] h = (refl, refl)
Succeeded-counts (r ∷ rs) h = ground (arith, Succeeded-counts rs h.1)

ensured :
    (a b : ℕ) (why : SuiteError) (u : Unit {0})
    → ensure (eqb a 0 && eqb b 0) why ≡ ok u
    → (a ≡ 0) × (b ≡ 0)
ensured a b why u h = ground arith

ensure_zero :
    (a b : ℕ) (why : SuiteError) → (a ≡ 0) × (b ≡ 0) → ensure (eqb a 0 && eqb b 0) why ≡ ok tt
ensure_zero a b why h = ground arith

-- A suite succeeds exactly when each of its records is of a scenario that ran and passed, and the
-- cleanup succeeds.
pub finish-ok_iff :
    (rs : List RunRecord) (cleanup : Result SuiteError (Unit {0}))
    → (finish rs cleanup ≡ ok tt) ↔ (All Succeeded rs × (cleanup ≡ ok tt))
unfolding finish
finish-ok_iff rs cleanup =
    let failed = length (retain is_failed rs) in
    let skipped = length (retain is_not_run rs) in
    let why : SuiteError = record { failed = failed; not_run = skipped } in
    (
      λ h.
          let (u, checked, cleaned) =
            >>=-eq-ok (ensure (eqb failed 0 && eqb skipped 0) why) (λ _. cleanup) h in
          (no_failures rs (ensured failed skipped why u checked), cleaned),
      λ h. ap (λ c. c >> cleanup) (ensure_zero failed skipped why (Succeeded-counts rs h.0)) ∙ h.1,
    )
