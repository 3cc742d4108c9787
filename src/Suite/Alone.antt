-- ===== src/Suite/Alone.antt =====
-- cli/src/suite/continuous.rs: which cases of a round of the continuous suite run at the same time.
use redsuite.Prelude.{
  ℕ, ◌+◌, ◌-◌, ◌≤◌, ◌≡◌, ◌⊎◌, inl, inr, refl, sym, subst, false, Bool-cases, List, [], ◌∷◌, ◌++◌,
  All, All-append, arith, if◌then◌else◌, length, length-append,
}
use redsuite.Suite.Round.{
  Case, is_exclusive, Stage, choosing, making_room, alone, ending, over, Round, begin_round,
  keep_beside, choose, settle_record, start_case, go_to, RoundStep, chooses, settles, starts,
  breaks, resumes, runs_out, finishes, RoundReach, first, then_step,
}

abbrev pub IsTogether : Case → Type 0
IsTogether c = is_exclusive c ≡ false

-- The cases that run may do so at the same time: none of them is exclusive, or there is but one.
abbrev pub IsFair : List Case → Type 0
IsFair cs = All IsTogether cs ⊎ (length cs ≤ 1)

All-without :
    (before : List Case) (c : Case) (after : List Case)
    → All IsTogether (before ++ c ∷ after)
    → All IsTogether (before ++ after)
All-without [] c after h = h.1
All-without (b ∷ before) c after h = (h.0, All-without before c after h.1)

length-without :
    (before : List Case) (c : Case) (after : List Case)
    → length (before ++ c ∷ after) ≡ 1 + length (before ++ after)
length-without before c after =
    omega (arith, length-append before (c ∷ after), length-append before after)

empty_of_length : (cs : List Case) → length cs ≤ 0 → cs ≡ []
empty_of_length [] h = refl
empty_of_length (c ∷ cs) h = absurd (omega arith)

module _ (limit : ℕ) (some_room : 1 ≤ limit) where
  -- What runs at each stage of a round.
  abbrev pub Runs : Stage → List Case → Type 0
  Runs choosing cs = All IsTogether cs × (length cs ≤ limit)
  Runs (making_room c) cs = All IsTogether cs × (length cs ≤ limit)
  Runs alone cs = length cs ≤ 1
  Runs ending cs = IsFair cs × (length cs ≤ limit)
  Runs over cs = length cs ≤ 0

  Runs-without :
      (stage : Stage) (before : List Case) (c : Case) (after : List Case)
      → Runs stage (before ++ c ∷ after)
      → Runs stage (before ++ after)
  Runs-without choosing before c after h =
      (All-without before c after h.0, omega (arith, h.1, length-without before c after))
  Runs-without (making_room d) before c after h =
      (All-without before c after h.0, omega (arith, h.1, length-without before c after))
  Runs-without alone before c after h = omega (arith, h, length-without before c after)
  Runs-without ending before c after h = (
    elim h.0 [
      | inl together ↦ inl (All-without before c after together)
      | inr few ↦ inr (omega (arith, few, length-without before c after))
    ],
    omega (arith, h.1, length-without before c after),
  )
  Runs-without over before c after h = omega (arith, h, length-without before c after)

  Runs-start :
      (c : Case) (r : Round)
      → Runs (making_room c) r.running
      → length r.running ≤ keep_beside limit c
      → Runs (start_case c r).stage (start_case c r).running
  unfolding start_case keep_beside
  Runs-start c r h room = elim (Bool-cases (is_exclusive c)) [
    | inl one ↦
        let few : length r.running ≤ 0 = rw (one, if◌then◌else◌) at room in
        rw (one, if◌then◌else◌) (omega (arith, few, length-append r.running (c ∷ [])))
    | inr several ↦
        let room' : length r.running ≤ limit - 1 = rw (several, if◌then◌else◌) at room in
        rw (several, if◌then◌else◌)
          (
            All-append IsTogether r.running (c ∷ []) h.0 (several, tt),
            omega (arith, room', some_room, length-append r.running (c ∷ [])),
          )
  ]

  Step-Runs :
      {r r' : Round} → RoundStep limit r r' → Runs r.stage r.running → Runs r'.stage r'.running
  unfolding choose settle_record go_to
  Step-Runs (chooses r c rest at head) h = subst (λ s. Runs s r.running) at h
  Step-Runs (settles r keep before c after found settling more running named) h =
      Runs-without r.stage before c after (subst (Runs r.stage) running h)
  Step-Runs (starts r c at room fine) h = Runs-start c r (subst (λ s. Runs s r.running) at h) room
  Step-Runs (breaks r c stopped at room why) h =
      let h' : Runs (making_room c) r.running = subst (λ s. Runs s r.running) at h in
      (inl h'.0, h'.1)
  Step-Runs (resumes r at idle) h = subst (λ cs. Runs choosing cs) (sym idle) (tt, omega arith)
  Step-Runs (runs_out r at done) h =
      let h' : Runs choosing r.running = subst (λ s. Runs s r.running) at h in (inl h'.0, h'.1)
  Step-Runs (finishes r at idle) h = subst (λ cs. Runs over cs) (sym idle) (omega arith)

  Runs-IsFair : (stage : Stage) (cs : List Case) → Runs stage cs → IsFair cs × (length cs ≤ limit)
  Runs-IsFair choosing cs h = (inl h.0, h.1)
  Runs-IsFair (making_room c) cs h = (inl h.0, h.1)
  Runs-IsFair alone cs h = (inr h, omega arith)
  Runs-IsFair ending cs h = h
  Runs-IsFair over cs h = (inr (omega arith), omega arith)

  Reach-Runs : {cases : List Case} {r : Round} → RoundReach limit cases r → Runs r.stage r.running
  unfolding begin_round
  Reach-Runs first = (tt, omega arith)
  Reach-Runs (then_step before step) = Step-Runs step (Reach-Runs before)

  -- With a limit above zero, in every reachable state of a round of the continuous suite at most the limit
  -- of cases run, and where more than one runs none of them is exclusive.
  pub Reach-IsFair :
      {cases : List Case} {r : Round}
      → RoundReach limit cases r
      → IsFair r.running × (length r.running ≤ limit)
  Reach-IsFair {r = r} reached = Runs-IsFair r.stage r.running (Reach-Runs reached)
