-- ===== src/Suite/Lanes.antt =====
-- cli/src/suite/mod.rs: the lanes of a suite.
use mathlib.Core.List.{append-nil, append_assoc}
use redsuite.Prelude.{
  ◌≡◌, refl, sym, ap, ◌∙◌, ◌↔◌, inl, inr, true, false, List, [], ◌∷◌, ◌++◌, String, ◌==◌, string_eq,
  arith, if◌then◌else◌, Bool-cases, retain,
}
use redsuite.Suite.{
  ScenarioEntry, Lane, label_of, group, new_lane, place, place_all, lanes, sort_by_order,
}

abbrev pub label : ScenarioEntry → String
label entry = label_of (group entry.er)

-- The entries of the lane with a label.
pub entries_of : String → List Lane → List ScenarioEntry
entries_of l [] = []
entries_of l (lane ∷ others) = if lane.label == l then lane.entries else entries_of l others

-- No lane has the label.
abbrev pub Absent : String → List Lane → Type 0
Absent l [] = Unit
Absent l (lane ∷ others) = ((lane.label == l) ≡ false) × Absent l others

-- Every lane has a label of its own.
abbrev pub Distinct : List Lane → Type 0
Distinct [] = Unit
Distinct (lane ∷ others) = Absent lane.label others × Distinct others

abbrev only : String → ScenarioEntry → List ScenarioEntry
only l entry = if label entry == l then entry ∷ [] else []

same : (a b : String) → ((a == b) ≡ true) ↔ (a ≡ b)
same a b = string_eq.eq_iff a b

entries_of-place :
    (l : String) (entry : ScenarioEntry) (ls : List Lane)
    → entries_of l (place entry ls) ≡ entries_of l ls ++ only l entry
unfolding entries_of place new_lane
entries_of-place l entry [] = refl
entries_of-place l entry (lane ∷ others) = ground (
  arith,
  same lane.label l,
  same lane.label (label entry),
  same (label entry) l,
  entries_of-place l entry others,
  append-nil lane.entries,
  append-nil (entries_of l others),
)

only-retain :
    (l : String) (entry : ScenarioEntry) (rest : List ScenarioEntry)
    → only l entry ++ rest ≡ (if label entry == l then entry ∷ rest else rest)
only-retain l entry rest = ground arith

entries_of-place_all :
    (l : String) (entries : List ScenarioEntry) (ls : List Lane)
    → entries_of l (place_all entries ls) ≡ entries_of l ls ++ retain (λ e. label e == l) entries
unfolding place_all
entries_of-place_all l [] ls = sym (append-nil (entries_of l ls))
entries_of-place_all l (entry ∷ entries) ls =
    entries_of-place_all l entries (place entry ls)
    ∙ ap (λ p. p ++ retain (λ e. label e == l) entries) (entries_of-place l entry ls)
    ∙ append_assoc (entries_of l ls) (only l entry) (retain (λ e. label e == l) entries)
    ∙ ap (λ p. entries_of l ls ++ p) (only-retain l entry (retain (λ e. label e == l) entries))

place-Absent :
    (l : String) (entry : ScenarioEntry) (ls : List Lane)
    → (label entry == l) ≡ false
    → Absent l ls
    → Absent l (place entry ls)
unfolding place new_lane
place-Absent l entry [] h a = (h, tt)
place-Absent l entry (lane ∷ others) h a = elim (Bool-cases (lane.label == label entry)) [
  | inl here ↦ rw (here, if◌then◌else◌) a
  | inr there ↦ rw (there, if◌then◌else◌) (a.0, place-Absent l entry others h a.1)
]

place-Distinct : (entry : ScenarioEntry) (ls : List Lane) → Distinct ls → Distinct (place entry ls)
unfolding place new_lane
place-Distinct entry [] d = (tt, tt)
place-Distinct entry (lane ∷ others) d = elim (Bool-cases (lane.label == label entry)) [
  | inl here ↦ rw (here, if◌then◌else◌) d
  | inr there ↦
      let apart : (label entry == lane.label) ≡ false =
        ground (arith, same lane.label (label entry), same (label entry) lane.label) in
      rw (there, if◌then◌else◌)
        (place-Absent lane.label entry others apart d.0, place-Distinct entry others d.1)
]

place_all-Distinct :
    (entries : List ScenarioEntry) (ls : List Lane) → Distinct ls → Distinct (place_all entries ls)
unfolding place_all
place_all-Distinct [] ls d = d
place_all-Distinct (entry ∷ entries) ls d =
    place_all-Distinct entries (place entry ls) (place-Distinct entry ls d)

-- Every lane of a suite has a label of its own, and the entries of the lane with a label are exactly
-- those whose group has that label, or which have no group if it is `fresh`, in the order of the sorted
-- entries.
pub lanes-Split :
    (entries : List ScenarioEntry) (l : String)
    → Distinct (lanes entries)
      × (entries_of l (lanes entries) ≡ retain (λ e. label e == l) (sort_by_order entries))
unfolding lanes entries_of
lanes-Split entries l = (
  place_all-Distinct (sort_by_order entries) [] tt,
  entries_of-place_all l (sort_by_order entries) [],
)
