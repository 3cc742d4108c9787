-- ===== src/Stats/Reservoir.antt =====
-- core/src/stats.rs: `swap_remove` and the loop of `merge_reservoir`, on vectors as multisets.
use mathlib.Core.List.{Perm, Permᴰ, perm_middle, append_assoc}
use mathlib.Core.Logic.{∥∥₁_elim}
use native.Mathlib.Nat.{ℕ_set}
use mathlib.Core.List.Perm
use redsuite.Prelude.{
  ℕ, zero, suc, ◌+◌, ◌<◌, min, ◌≡◌, refl, Bool, true, false, List, [], ◌∷◌, ◌++◌, Option, none,
  some, length, length-append, arith, Option-cases, inl, inr, sym, ap, ◌∙◌, ◌⊎◌, if◌then◌else◌,
}
use redsuite.Stats.{Floats, Rng, split_last, swap_remove, draw_all, draw, pick}

split_last-perm : (x : ℕ) (xs : List ℕ) → Perm ((split_last x xs).0 ∷ (split_last x xs).1) (x ∷ xs)
unfolding split_last
split_last-perm x [] = Perm.rfl
split_last-perm x (y ∷ ys) =
    Perm.trans (Perm.swap x (split_last y ys).0 _) (Perm.cons x (split_last-perm y ys))

some_pair :
    {a c : ℕ} {b d : List ℕ}
    → ◌≡◌ {A = Option (ℕ × List ℕ)} (some (a, b)) (some (c, d))
    → (a ≡ c) × (b ≡ d)
some_pair e = ground arith

swap_remove_hit :
    (x : ℕ) (xs : List ℕ) (i : ℕ) {v : ℕ} {rest : List ℕ}
    → swap_remove xs i ≡ some (v, rest)
    → swap_remove (x ∷ xs) (suc i) ≡ some (v, x ∷ rest)
unfolding swap_remove
swap_remove_hit x [] i e = absurd (cc)
swap_remove_hit x (y ∷ ys) i e = ground arith

swap_remove_miss :
    (x : ℕ) (xs : List ℕ) (i : ℕ) → swap_remove xs i ≡ none → swap_remove (x ∷ xs) (suc i) ≡ none
unfolding swap_remove
swap_remove_miss x [] i e = refl
swap_remove_miss x (y ∷ ys) i e = ground arith

-- `swap_remove` takes exactly one element out.
pub swap_remove-perm :
    (xs : List ℕ) (i value : ℕ) (rest : List ℕ)
    → swap_remove xs i ≡ some (value, rest)
    → Perm (value ∷ rest) xs
unfolding swap_remove
swap_remove-perm [] i value rest e = absurd (cc)
swap_remove-perm (x ∷ []) zero value rest e = let (ev, er) = some_pair e in rw (← ev, ← er) Perm.rfl
swap_remove-perm (x ∷ y ∷ ys) zero value rest e =
    let (ev, er) = some_pair e in rw (← ev, ← er) (Perm.cons x (split_last-perm y ys))
swap_remove-perm (x ∷ xs) (suc i) value rest e = elim (Option-cases (swap_remove xs i)) [
  | inl miss ↦ absurd (cc (e, swap_remove_miss x xs i miss))
  | inr ((v, left), hit) ↦
      let (ev, er) = some_pair (sym (swap_remove_hit x xs i hit) ∙ e) in
      rw (← ev, ← er)
        (Perm.trans (Perm.swap x v left) (Perm.cons x (swap_remove-perm xs i v left hit)))
]

-- It succeeds at every index in range.
pub swap_remove-total :
    (xs : List ℕ) (i : ℕ)
    → i < length xs
    → (v : ℕ) × (rest : List ℕ) × (swap_remove xs i ≡ some (v, rest))
unfolding swap_remove
swap_remove-total [] i h = absurd (omega arith)
swap_remove-total (x ∷ []) zero h = (x, [], refl)
swap_remove-total (x ∷ y ∷ ys) zero h = (x, _, refl)
swap_remove-total (x ∷ xs) (suc i) h =
    let (v, rest, hit) = swap_remove-total xs i (omega arith) in
    (v, x ∷ rest, swap_remove_hit x xs i hit)

length-Permᴰ : {xs ys : List ℕ} → Permᴰ xs ys → length xs ≡ length ys
length-Permᴰ Permᴰ.nil = refl
length-Permᴰ (Permᴰ.cons _ p) = ap suc (length-Permᴰ p)
length-Permᴰ (Permᴰ.swap _ _) = refl
length-Permᴰ (Permᴰ.trans p q) = length-Permᴰ p ∙ length-Permᴰ q

-- The native length of lists that are permutations of one another.
length-Perm : (xs ys : List ℕ) → Perm xs ys → length xs ≡ length ys
length-Perm xs ys p = ∥∥₁_elim p (ℕ_set _ _) length-Permᴰ

module _ (f : Floats) (r : Rng f) where
  open f use {F}
  open r use {Seed, below, below_lt}

  -- The sampled elements and those left behind are the elements that were there, and as many are
  -- sampled as there is room for.
  abbrev pub Samples : ℕ → List ℕ → List ℕ → List ℕ → List ℕ → Type 0
  Samples room own other merged result =
      (left : List ℕ) × Perm (result ++ left) (merged ++ (own ++ other))
      × (length result ≡ length merged + min room (length own + length other))

  -- What one draw does: nothing with both reservoirs empty, and else it takes one element out.
  abbrev Draws : List ℕ → List ℕ → Option (ℕ × List ℕ × List ℕ × Seed) → Type 0
  Draws own other o =
      (o ≡ none) × (own ≡ []) × (other ≡ [])
      ⊎ ((v : ℕ) × (own' : List ℕ) × (other' : List ℕ) × (seed : Seed) × (o
            ≡ some (v, own', other', seed))
          × Perm (v ∷ (own' ++ other')) (own ++ other)
          × (suc (length own' + length other') ≡ length own + length other))

  pick_own :
      (own other : List ℕ) (picked : ℕ) (seed : Seed)
      → picked < length own
      → Draws own other (pick seed true picked own other)
  unfolding pick
  pick_own own other picked seed h =
      let (v, rest, e) = swap_remove-total own picked h in
      let taken = swap_remove-perm own picked v rest e in
      rw (e, pick)
        (inr (
          v,
          rest,
          other,
          seed,
          refl,
          Perm.append_right other taken,
          omega (arith, length-Perm _ _ taken),
        ))

  pick_other :
      (own other : List ℕ) (picked : ℕ) (seed : Seed)
      → picked < length other
      → Draws own other (pick seed false picked own other)
  unfolding pick
  pick_other own other picked seed h =
      let (v, rest, e) = swap_remove-total other picked h in
      let taken = swap_remove-perm other picked v rest e in
      rw (e, pick)
        (inr (
          v,
          own,
          rest,
          seed,
          refl,
          Perm.trans (Perm.symm (perm_middle own rest)) (Perm.append_left own taken),
          omega (arith, length-Perm _ _ taken),
        ))

  draw_either :
      (is_own : Bool) (own other : List ℕ) (seed : Seed)
      → 0 < length own
      → 0 < length other
      → Draws own other (
          let (picked, seed') = below (length (if is_own then own else other)) seed in
          pick seed' is_own picked own other)
  draw_either true own other seed h k = pick_own own other _ _ (below_lt _ _ h)
  draw_either false own other seed h k = pick_other own other _ _ (below_lt _ _ k)

  draw-Draws :
      (own_weight other_weight : F) (own other : List ℕ) (seed : Seed)
      → Draws own other (draw f r own_weight other_weight own other seed)
  unfolding draw
  draw-Draws ow tw [] [] seed = inl (refl, refl, refl)
  draw-Draws ow tw (x ∷ xs) [] seed = pick_own (x ∷ xs) [] _ _ (below_lt _ _ (omega arith))
  draw-Draws ow tw [] (y ∷ ys) seed = pick_other [] (y ∷ ys) _ _ (below_lt _ _ (omega arith))
  draw-Draws ow tw (x ∷ xs) (y ∷ ys) seed =
      draw_either _ (x ∷ xs) (y ∷ ys) _ (omega arith) (omega arith)

  -- The loop samples without replacement: the elements in its result and those left behind are together
  -- the elements that were there, and as many are sampled as there is room for.
  pub draw_all-Samples :
      (own_weight other_weight : F) (room : ℕ) (own other merged : List ℕ) (seed : Seed)
      → Samples room own other merged
          (draw_all f r own_weight other_weight room own other merged seed).0
  unfolding draw_all
  draw_all-Samples ow tw zero own other merged seed = (own ++ other, Perm.rfl, omega arith)
  draw_all-Samples ow tw (suc room) own other merged seed = elim (draw-Draws ow tw own other seed) [
    | inl (e, no_own, no_other) ↦
        rw (e, draw_all) (rw (no_own, no_other) ([], Perm.rfl, omega arith))
    | inr (v, own', other', seed', e, taken, fewer) ↦
        rw (e, draw_all)
          (let (left, samples, many) =
              draw_all-Samples ow tw room own' other' (merged ++ v ∷ []) seed' in
            (
              left,
              Perm.trans samples rw append_assoc (Perm.append_left merged taken),
              omega (arith, many, fewer, length-append merged (v ∷ [])),
            ))
  ]
