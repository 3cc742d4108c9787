-- ===== src/Suite.antt =====
-- cli/src/suite/mod.rs, cli/src/catalog.rs and core/src/catalog.rs: the scenarios of a suite, how they are
-- selected and laid out in lanes, and the records of their runs. Groups, which the code compares by
-- address or by label, are known by their labels here, and a preparation by its address.
pub mod Lanes
pub mod Entries
pub mod Progress
pub mod Accounted
pub mod Outcome
pub mod Complete
pub mod Round
pub mod Alone
mod Tests
use Prim.Native.String.{◌++◌ as ◌<>◌}
use text.Mathlib.Text.{starts_with}
use redsuite.Prelude.{
  ℕ, ◌+◌, Bool, true, false, not, ◌&&◌, ◌||◌, List, [], ◌∷◌, ◌++◌, map, Option, none, some, String,
  Result, ok, err, ensure, ◌>>◌, ◌>>=◌, ◌==◌, string_eq, nat_eq, contains, if◌then◌else◌, leb, eqb,
  length, retain, get_elem?,
}

pub data Family : Type 0 where
  redline redshift redhat : Family

unfoldable pub prefix : Family → String
prefix redline = "redline"
prefix redshift = "redshift"
prefix redhat = "redhat"

pub data Er : Type 0 where
  shared exclusive : (group : String) → Er
  fresh : Er

-- `Er::group`
unfoldable pub group : Er → Option String
group (shared label) = some label
group (exclusive label) = some label
group fresh = none

pub record ScenarioEntry : Type 0 where
  pub short_name : String
  pub er : Er
  pub explicit_only : Bool
  pub order : ℕ
  pub prepare : Option ℕ

unfoldable pub name : Family → ScenarioEntry → String
unfolding prefix
name family entry = prefix family <> "/" <> entry.short_name

-- An entry with its index in the catalog.
abbrev pub Indexed : Type 0
Indexed = ℕ × ScenarioEntry

unfoldable pub enumerate : ℕ → List ScenarioEntry → List Indexed
enumerate index [] = []
enumerate index (entry ∷ entries) = (index, entry) ∷ enumerate (index + 1) entries

unfoldable pub is_match : Family → String → Indexed → Bool
is_match family target (index, entry) =
    starts_with (name family entry) target || starts_with entry.short_name target

unfoldable pub is_exact : Family → String → Indexed → Bool
is_exact family target (index, entry) = name family entry == target || entry.short_name == target

abbrev pub or_else : List Indexed → List Indexed → List Indexed
or_else [] prefixed = prefixed
or_else (entry ∷ exact) prefixed = entry ∷ exact

-- The matches of one target: the exact ones, or else those by prefix.
unfoldable pub matches : Family → List ScenarioEntry → String → List Indexed
unfolding is_match is_exact enumerate
matches family entries target =
    let found = retain (is_match family target) (enumerate 0 entries) in
    or_else (retain (is_exact family target) found)
      (retain (λ e. not (is_exact family target e)) found)

unfoldable pub add_new : List Indexed → List ℕ → List ℕ
add_new [] selected = selected
add_new ((index, entry) ∷ found) selected =
    add_new found (if contains selected index then selected else selected ++ index ∷ [])

-- The selection of one target: nothing matching is an error, with the target.
unfoldable pub select_one : Family → List ScenarioEntry → String → List ℕ → Result String (List ℕ)
unfolding matches add_new
select_one family entries target selected =
    let found = matches family entries target in
    ensure (not (eqb (length found) 0)) target >> ok (add_new found selected)

unfoldable pub select_all :
    Family → List ScenarioEntry → List String → List ℕ → Result String (List ℕ)
unfolding select_one
select_all family entries [] selected = ok selected
select_all family entries (target ∷ targets) selected =
    select_one family entries target selected >>= λ s. select_all family entries targets s

-- `filter_map(|index| entries[index].take())`, on indices that all differ.
unfoldable pub pick : List ScenarioEntry → List ℕ → List ScenarioEntry
pick entries [] = []
pick entries (index ∷ indices) = elim (get_elem? entries index) [
  | none ↦ pick entries indices
  | some entry ↦ entry ∷ pick entries indices
]

-- `select`, on the catalog of the family.
unfoldable pub select :
    Family → List ScenarioEntry → List String → Result String (List ScenarioEntry)
unfolding select_all pick
select family entries [] = ok (retain (λ e. not e.explicit_only) entries)
select family entries (target ∷ targets) =
    select_all family entries (target ∷ targets) [] >>= λ indices. ok (pick entries indices)

-- `sort_by_key(|entry| entry.order)`, which is stable.
unfoldable pub insert_by_order : ScenarioEntry → List ScenarioEntry → List ScenarioEntry
insert_by_order entry [] = entry ∷ []
insert_by_order entry (other ∷ others) =
    let rest = insert_by_order entry others in
    if leb entry.order other.order then entry ∷ other ∷ others else other ∷ rest

unfoldable pub sort_by_order : List ScenarioEntry → List ScenarioEntry
unfolding insert_by_order
sort_by_order [] = []
sort_by_order (entry ∷ entries) = insert_by_order entry (sort_by_order entries)

pub record Lane : Type 0 where
  pub label : String
  pub group : Option String
  pub entries : List ScenarioEntry

abbrev pub label_of : Option String → String
label_of none = "fresh"
label_of (some label) = label

unfoldable pub new_lane : ScenarioEntry → Lane
unfolding group
new_lane entry = record {
  label = label_of (group entry.er);
  group = group entry.er;
  entries = entry ∷ [];
}

-- The lane with the entry's label takes it, or a new lane at the end does.
unfoldable pub place : ScenarioEntry → List Lane → List Lane
unfolding group new_lane
place entry [] = new_lane entry ∷ []
place entry (lane ∷ lanes) =
    let rest = place entry lanes in
    if lane.label == label_of (group entry.er)
    then record lane { entries = lane.entries ++ entry ∷ [] } ∷ lanes
    else lane ∷ rest

unfoldable pub place_all : List ScenarioEntry → List Lane → List Lane
unfolding place
place_all [] lanes = lanes
place_all (entry ∷ entries) lanes = place_all entries (place entry lanes)

-- `Suite::lanes`
unfoldable pub lanes : List ScenarioEntry → List Lane
unfolding place_all sort_by_order
lanes entries = place_all (sort_by_order entries) []

-- `report` is whether the scenario's report passed, if there is one.
pub record RunRecord : Type 0 where
  pub name : String
  pub outcome : Result String (Unit {0})
  pub phase : String
  pub report : Option Bool

abbrev pub report_passed : Option Bool → Bool
report_passed none = true
report_passed (some passed) = passed

abbrev pub is_ok : Result String (Unit {0}) → Bool
is_ok (ok u) = true
is_ok (err why) = false

unfoldable pub passed : RunRecord → Bool
passed r = is_ok r.outcome && report_passed r.report

unfoldable pub failed_record : String → String → String → RunRecord
failed_record name phase reason = record {
  name = name;
  outcome = err reason;
  phase = phase;
  report = none;
}

unfoldable pub not_run : Family → String → ScenarioEntry → RunRecord
unfolding name failed_record
not_run family reason entry = failed_record (name family entry) "not run" reason
