-- ===== src/Admission/Seconds.antt =====
-- core/src/transport/rate.rs: the figures that the admissions feed to their summary.
use redsuite.Prelude.{
  ℕ, zero, suc, ◌+◌, ◌-◌, ◌≤◌, ◌<◌, ◌≡◌, refl, ap, ap₂, sym, ◌∙◌, subst, List, [], ◌∷◌, ◌++◌, arith,
  eqb, if◌then◌else◌,
}
use redsuite.Stats.{Floats, Rng, Stats, push, new}
use redsuite.Admission.{Admissions, second, start, advance, admit}

-- The figures of the first seconds.
unfoldable pub figures : (ℕ → ℕ) → ℕ → List ℕ
figures seen zero = []
figures seen (suc n) = figures seen n ++ seen n ∷ []

figures-ap :
    (seen seen' : ℕ → ℕ) (n : ℕ)
    → ((j : ℕ) → j < n → seen j ≡ seen' j)
    → figures seen n ≡ figures seen' n
unfolding figures
figures-ap seen seen' zero h = refl
figures-ap seen seen' (suc n) h =
    ap₂ (λ xs x. xs ++ x ∷ []) (figures-ap seen seen' n (λ j lt. h j (omega arith)))
      (h n (omega arith))

-- How many of the instants lie in a second.
unfoldable pub admitted_in : ℕ → List ℕ → ℕ → ℕ
admitted_in origin [] j = 0
admitted_in origin (now ∷ nows) j =
    (if eqb (second origin now) j then 1 else 0) + admitted_in origin nows j

-- The instants do not go back, and do not lie before a second.
abbrev pub Ordered : ℕ → ℕ → List ℕ → Type 0
Ordered origin bucket [] = Unit
Ordered origin bucket (now ∷ nows) =
    (bucket ≤ second origin now) × Ordered origin (second origin now) nows

module _ (f : Floats) (r : Rng f) where
  unfoldable pub push_all : Stats f r → List ℕ → Stats f r
  push_all s [] = s
  push_all s (x ∷ xs) = push_all (push f r s x) xs

  push_all-append :
      (s : Stats f r) (xs ys : List ℕ) → push_all s (xs ++ ys) ≡ push_all (push_all s xs) ys
  unfolding push_all
  push_all-append s [] ys = refl
  push_all-append s (x ∷ xs) ys = push_all-append (push f r s x) xs ys

  unfoldable pub admit_all : Admissions f r → List ℕ → Admissions f r
  admit_all s [] = s
  admit_all s (now ∷ nows) = admit_all (admit f r s now) nows

  -- The summary has been fed the figures of the seconds before the bucket's, and the count is the
  -- figure of the bucket's second.
  pub record Tallied (fresh : Stats f r) (seen : ℕ → ℕ) (s : Admissions f r) : Type 0 where
    pub fed : s.rps ≡ push_all fresh (figures seen s.bucket)
    pub counting : s.count ≡ seen s.bucket

  abbrev Quiet : (ℕ → ℕ) → ℕ → Type 0
  Quiet seen bucket = (j : ℕ) → bucket < j → seen j ≡ 0

  advance-Tallied :
      (n : ℕ) (fresh : Stats f r) (seen : ℕ → ℕ) (s : Admissions f r)
      → Tallied fresh seen s
      → Quiet seen s.bucket
      → Tallied fresh seen (advance f r n s)
        × ((advance f r n s).bucket ≡ s.bucket + n)
        × ((advance f r n s).origin ≡ s.origin)
  unfolding advance push_all figures
  advance-Tallied zero fresh seen s v quiet = (v, omega arith, refl)
  advance-Tallied (suc n) fresh seen s v quiet =
      let next = record s { rps = push f r s.rps s.count; count = 0; bucket = suc s.bucket } in
      let fed =
        ap₂ (push f r) v.fed v.counting
        ∙ sym (push_all-append fresh (figures seen s.bucket) (seen s.bucket ∷ [])) in
      let (w, at, from) =
        advance-Tallied n fresh seen next
          (record { fed = fed; counting = sym (quiet (suc s.bucket) (omega arith)) })
          (λ j lt. quiet j (omega arith)) in
      (w, omega arith, from)

  Tallied-ap :
      (fresh : Stats f r) (seen seen' : ℕ → ℕ) (s : Admissions f r)
      → ((j : ℕ) → seen j ≡ seen' j)
      → Tallied fresh seen s
      → Tallied fresh seen' s
  Tallied-ap fresh seen seen' s same v = record {
    fed = v.fed ∙ ap (push_all fresh) (figures-ap seen seen' s.bucket (λ j lt. same j));
    counting = v.counting ∙ same s.bucket;
  }

  -- One more admission in the second `t`.
  abbrev more : ℕ → (ℕ → ℕ) → ℕ → ℕ
  more t seen j = (if eqb t j then 1 else 0) + seen j

  counted :
      (fresh : Stats f r) (seen : ℕ → ℕ) (s : Admissions f r) (t : ℕ)
      → Tallied fresh seen s
      → s.bucket ≡ t
      → Tallied fresh (more t seen) (record s { count = s.count + 1 })
  counted fresh seen s t v at = record {
    fed =
        v.fed ∙ ap (push_all fresh) (figures-ap seen (more t seen) s.bucket (λ j lt. ground arith));
    counting = ground (arith, v.counting);
  }

  admit-Tallied :
      (fresh : Stats f r) (seen : ℕ → ℕ) (s : Admissions f r) (now : ℕ)
      → Tallied fresh seen s
      → Quiet seen s.bucket
      → s.bucket ≤ second s.origin now
      → Tallied fresh (more (second s.origin now) seen) (admit f r s now)
        × ((admit f r s now).bucket ≡ second s.origin now)
        × ((admit f r s now).origin ≡ s.origin)
  unfolding admit
  admit-Tallied fresh seen s now v quiet le =
      let (w, at, from) = advance-Tallied (second s.origin now - s.bucket) fresh seen s v quiet in
      let here = at ∙ (omega arith) in
      (
        counted fresh seen (advance f r (second s.origin now - s.bucket) s) (second s.origin now) w
            here,
        here,
        from,
      )

  more-Quiet :
      (bucket t : ℕ) (seen : ℕ → ℕ) (j : ℕ)
      → bucket ≤ t
      → Quiet seen bucket
      → t < j
      → more t seen j ≡ 0
  more-Quiet bucket t seen j le quiet lt = ground (arith, quiet j (omega arith))

  admit_all-from :
      (fresh : Stats f r) (seen : ℕ → ℕ) (s : Admissions f r) (origin : ℕ) (nows : List ℕ)
      → s.origin ≡ origin
      → Tallied fresh seen s
      → Quiet seen s.bucket
      → Ordered origin s.bucket nows
      → Tallied fresh (λ j. admitted_in origin nows j + seen j) (admit_all s nows)
  unfolding admit_all admitted_in
  admit_all-from fresh seen s origin [] from v quiet ordered =
      Tallied-ap fresh seen _ s (λ j. omega arith) v
  admit_all-from fresh seen s origin (now ∷ nows) from v quiet ordered =
      let t = second origin now in
      let le : s.bucket ≤ second s.origin now = rw from ordered.0 in
      let (w, at, from') = admit-Tallied fresh seen s now v quiet le in
      let at' : (admit f r s now).bucket ≡ t = at ∙ ap (λ o. second o now) from in
      let w' = subst (λ o. Tallied fresh (more (second o now) seen) (admit f r s now)) from w in
      Tallied-ap fresh _ _ (admit_all (admit f r s now) nows) (λ j. omega arith)
        (admit_all-from fresh (more t seen) (admit f r s now) origin nows (from' ∙ from) w'
          (λ j lt. more-Quiet s.bucket t seen j ordered.0 quiet (rw (← at') lt)) (rw at' ordered.1))

  -- After admissions at instants that do not go back, from the start on, the summary has been fed the
  -- number of admissions of each second before the bucket's, in order and with the idle seconds as zero,
  -- and the count is the number of admissions in the bucket's second.
  pub admit_all-Tallied :
      (origin : ℕ) (seed : r.Seed) (nows : List ℕ)
      → Ordered origin 0 nows
      → Tallied (new f r seed) (admitted_in origin nows) (admit_all (start f r origin seed) nows)
  unfolding start figures push_all
  admit_all-Tallied origin seed nows ordered =
      Tallied-ap (new f r seed) (λ j. admitted_in origin nows j + 0) (admitted_in origin nows)
        (admit_all (start f r origin seed) nows) (λ j. omega arith)
        (admit_all-from (new f r seed) (λ j. 0) (start f r origin seed) origin nows refl
          (record { fed = refl; counting = refl }) (λ j lt. refl) ordered)
