-- ===== src/Suite/Progress.antt =====
-- cli/src/suite/mod.rs: the end of `run_entries`.
use redsuite.Prelude.{
  ℕ, ◌+◌, ◌*◌, ◌≤◌, ◌<◌, ◌≡◌, ◌≢◌, refl, ap, inl, inr, Bool, false, List, [], ◌∷◌, none, ok, arith,
  length, length-append, Bool-cases, ltb, ltb→lt,
}
use redsuite.Suite.{Family, ScenarioEntry, name, RunRecord}
use redsuite.Suite.Entries.{
  Stage, starting, waiting, over, Entries, begin, scenario_finished, launch, wait_for_end, collect,
  mark_rest, Step, launches, waits, collects, marks, Reach, start, next, meanwhile,
}

abbrev stage_weight : Stage → ℕ
stage_weight starting = 2
stage_weight waiting = 1
stage_weight over = 0

weight : Entries → ℕ
weight e = 3 * length e.pending + 2 * length e.running + stage_weight e.stage

module _ (family : Family) (limit : ℕ) (stop_on_failure : Bool) where
  Step-weight : {e e' : Entries} → Step family limit stop_on_failure e e' → weight e' < weight e
  unfolding weight launch wait_for_end collect scenario_finished mark_rest
  Step-weight (launches e entry rest stopped at fine free room head) =
      omega (arith, ap length head, length-append e.running (entry ∷ []))
  Step-weight (waits e stopped at why) = omega (arith, ap stage_weight at)
  Step-weight (collects e before entry after r at running named) = omega (
    arith,
    ap stage_weight at,
    ap length running,
    length-append before (entry ∷ after),
    length-append before after,
  )
  Step-weight (marks e stopped at idle) = omega (arith, ap stage_weight at)

  Reach-weight :
      {finished : ℕ} {entries : List ScenarioEntry} {others n : ℕ} {e : Entries}
      → Reach family limit stop_on_failure finished entries others n e
      → n + weight e ≤ 3 * length entries + 2
  unfolding weight begin scenario_finished
  Reach-weight start = omega arith
  Reach-weight (next r s) = omega (arith, Step-weight s, Reach-weight r)
  Reach-weight (meanwhile r) = Reach-weight r

  -- What can follow a state.
  abbrev pub CanStep : Entries → Type 0
  CanStep e = (e' : Entries) × Step family limit stop_on_failure e e'

  from_starting :
      (e : Entries) (pending : List ScenarioEntry)
      → e.stage ≡ starting
      → e.pending ≡ pending
      → CanStep e
  from_starting e [] at none_left = (_, waits e false at (inr (inr (inr none_left))))
  from_starting e (entry ∷ rest) at head = elim (Bool-cases e.failed) [
    | inl failed ↦ (_, waits e false at (inl failed))
    | inr fine ↦ elim (Bool-cases (ltb (length e.running) limit)) [
      | inl room ↦ (_, launches e entry rest false at fine refl (ltb→lt _ _ room) head)
      | inr full ↦ (_, waits e false at (inr (inr (inl (ground arith)))))
    ]
  ]

  from_waiting :
      (e : Entries) (running : List ScenarioEntry)
      → e.stage ≡ waiting
      → e.running ≡ running
      → CanStep e
  from_waiting e [] at idle = (_, marks e false at idle)
  from_waiting e (entry ∷ after) at some_run =
      let r : RunRecord = record {
        name = name family entry;
        outcome = ok tt;
        phase = "scenario";
        report = none;
      } in
      (_, collects e [] entry after r at some_run refl)

  from_stage : (e : Entries) (stage : Stage) → e.stage ≡ stage → e.stage ≢ over → CanStep e
  from_stage e starting at going = from_starting e e.pending at refl
  from_stage e waiting at going = from_waiting e e.running at refl
  from_stage e over at going = absurd (going at)

  -- Running some entries ends: no run takes more than three steps for each entry and two besides, and
  -- a run that is not over can always take another, since a scenario that runs may end.
  pub Reach-ends :
      {finished : ℕ} {entries : List ScenarioEntry} {others n : ℕ} {e : Entries}
      → Reach family limit stop_on_failure finished entries others n e
      → (n ≤ 3 * length entries + 2) × (e.stage ≢ over → CanStep e)
  Reach-ends {e = e} r = (omega (arith, Reach-weight r), from_stage e e.stage refl)
