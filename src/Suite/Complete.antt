-- ===== src/Suite/Complete.antt =====
-- cli/src/suite/mod.rs: a lane's records, over the entries that it holds.
use redsuite.Prelude.{
  ℕ, ◌+◌, ◌≡◌, refl, inl, inr, Bool, not, List, [], ◌∷◌, Option, none, some, String, map, arith,
  if◌then◌else◌, retain, Bool-cases,
}
use redsuite.Suite.{Family, ScenarioEntry, Lane, RunRecord, not_run, name}
use redsuite.Suite.Accounted.{occurs, record_name, names-records, names-not_run}
use redsuite.Suite.Outcome.{is_shared, all_passed, then_exclusive, group_records, entry_records}

-- Running some entries gives each of them one record.
abbrev pub RunsAll : Family → (List ScenarioEntry → ℕ → List RunRecord) → Type 0
RunsAll family run =
    (entries : List ScenarioEntry) (limit : ℕ) (n : String)
    → occurs n (map record_name (run entries limit)) ≡ occurs n (map (name family) entries)

module _ (family : Family) (serial : Bool) (run : List ScenarioEntry → ℕ → List RunRecord)
    (runs : RunsAll family run) where
  names-retain :
      (p : ScenarioEntry → Bool) (n : String) (xs : List ScenarioEntry)
      → occurs n (map (name family) (retain p xs))
          + occurs n (map (name family) (retain (λ x. not (p x)) xs))
        ≡ occurs n (map (name family) xs)
  unfolding occurs
  names-retain p n [] = refl
  names-retain p n (x ∷ xs) = ground (arith, names-retain p n xs)

  then_exclusive-names :
      (n : String) (records : List RunRecord) (entries : List ScenarioEntry)
      → occurs n (map record_name (then_exclusive family serial run records entries))
        ≡ occurs n (map record_name records) + occurs n (map (name family) entries)
  unfolding then_exclusive
  then_exclusive-names n records entries = elim (Bool-cases (all_passed records)) [
    | inl good ↦
        rw (good, if◌then◌else◌)
          (omega (arith, names-records n records (run entries 1), runs entries 1 n))
    | inr bad ↦
        let reason : String = "earlier scenario in this ER group failed" in
        rw (bad, if◌then◌else◌)
          (omega (
            arith,
            names-records n records (map (not_run family reason) entries),
            names-not_run family n reason entries,
          ))
  ]

  group_records-names :
      (n : String) (g : Option String) (fresh_limit shared_limit : ℕ) (entries : List ScenarioEntry)
      → occurs n
          (map record_name (group_records family serial run g fresh_limit shared_limit entries))
        ≡ occurs n (map (name family) entries)
  unfolding group_records
  group_records-names n none fresh_limit shared_limit entries = runs entries fresh_limit n
  group_records-names n (some g) fresh_limit shared_limit entries = omega (
    arith,
    then_exclusive-names n (run (retain is_shared entries) shared_limit)
        (retain (λ e. not (is_shared e)) entries),
    runs (retain is_shared entries) shared_limit n,
    names-retain is_shared n entries,
  )

  -- If running some entries gives each of them one record, so does the run of a lane, whether it is serial,
  -- has a group or not, and whether or not the shared scenarios of its group pass: each of its entries
  -- has one record, as often as its name stands among them.
  pub entry_records-names :
      (n : String) (fresh_limit shared_limit : ℕ) (lane : Lane)
      → occurs n (map record_name (entry_records family serial run fresh_limit shared_limit lane))
        ≡ occurs n (map (name family) lane.entries)
  unfolding entry_records
  entry_records-names n fresh_limit shared_limit lane = elim (Bool-cases serial) [
    | inl one ↦ rw (one, if◌then◌else◌) (runs lane.entries 1 n)
    | inr many ↦
        rw (many, if◌then◌else◌)
          (group_records-names n lane.group fresh_limit shared_limit lane.entries)
  ]
