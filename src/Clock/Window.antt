-- ===== src/Clock/Window.antt =====
-- core/src/transport/clock.rs: the stamps of a window of ids.
use redsuite.Prelude.{
  ap, ◌∙◌, ◌⊎◌, inl, inr, Option-cases, length-set, ℕ, suc, zero, ◌+◌, ◌-◌, ◌<◌, ◌≤◌, ◌≡◌, ◌≢◌,
  refl, List, [], ◌∷◌, Option, none, some, min, arith, get_elem?, set, length, checked_sub,
}
use redsuite.Clock.{
  within, store, load, SendClock, u32_max, micros, slot_of, stamp, elapsed_of, elapsed_at,
  elapsed_micros,
}

get_elem?-set : (xs : List ℕ) (i v : ℕ) → i < length xs → get_elem? (set xs i v) i ≡ some v
get_elem?-set [] i v h = absurd (omega arith)
get_elem?-set (x ∷ xs) zero v h = refl
get_elem?-set (x ∷ xs) (suc i) v h = get_elem?-set xs i v (omega arith)

get_elem?-set_other : (xs : List ℕ) (i j v : ℕ) → i ≢ j → get_elem? (set xs i v) j ≡ get_elem? xs j
get_elem?-set_other [] i j v h = refl
get_elem?-set_other (x ∷ xs) zero zero v h = absurd (h refl)
get_elem?-set_other (x ∷ xs) zero (suc j) v h = refl
get_elem?-set_other (x ∷ xs) (suc i) zero v h = refl
get_elem?-set_other (x ∷ xs) (suc i) (suc j) v h = get_elem?-set_other xs i j v (λ e. h (cc))

-- The ids of the window.
abbrev pub Tracked : SendClock → ℕ → Type 0
Tracked c id = (c.first_id ≤ id) × (id < c.first_id + length c.sent_micros)

slot_of-Tracked : (c : SendClock) (id : ℕ) → Tracked c id → slot_of c id ≡ some (id - c.first_id)
unfolding slot_of within
slot_of-Tracked c id h = ground arith

slot_of-other :
    (c : SendClock) (id other : ℕ)
    → Tracked c id
    → id ≢ other
    → (slot_of c other ≡ none)
      ⊎ ((index : ℕ) × (slot_of c other ≡ some index) × (id - c.first_id ≢ index))
unfolding slot_of within
slot_of-other c id other h apart = elim (Option-cases (slot_of c other)) [
  | inl outside ↦ inl outside
  | inr (index, inside) ↦
      let at : (c.first_id ≤ other) × (index ≡ other - c.first_id) = ground arith in
      inr (index, inside, λ same. apart (omega arith))
]

slot_of-set :
    (c : SendClock) (id index value : ℕ)
    → slot_of (record c { sent_micros = set c.sent_micros index value }) id ≡ slot_of c id
unfolding slot_of
slot_of-set c id index value =
    ap (λ n. within n (checked_sub id c.first_id)) (length-set c.sent_micros index value)

load-set_other :
    (c : SendClock) (o : Option ℕ) (index value : ℕ)
    → (o ≡ none) ⊎ ((j : ℕ) × (o ≡ some j) × (index ≢ j))
    → load o (record c { sent_micros = set c.sent_micros index value }) ≡ load o c
unfolding load
load-set_other c none index value h = refl
load-set_other c (some i) index value (inl e) = absurd (cc)
load-set_other c (some i) index value (inr (j, e, apart)) =
    get_elem?-set_other c.sent_micros index i value (λ same. apart (cc))

-- Stamping a tracked id succeeds. Later its elapsed time is the microseconds since the stamp,
-- capped at the largest u32, and that of every other id is what it was.
pub elapsed_micros-stamp :
    (c : SendClock) (id at now other : ℕ)
    → Tracked c id
    → (c' : SendClock) × (stamp id at c ≡ some c')
      × (elapsed_micros now id c' ≡ some (min (micros c.epoch now - micros c.epoch at) u32_max))
      × (id ≢ other → elapsed_micros now other c' ≡ elapsed_micros now other c)
unfolding stamp store elapsed_micros elapsed_at elapsed_of load
elapsed_micros-stamp c id at now other h =
    let index = id - c.first_id in
    let value = micros c.epoch at + 1 in
    let c' = record c { sent_micros = set c.sent_micros index value } in
    let slot = slot_of-Tracked c id h in
    (
      c',
      ap (λ o. store value o c) slot,
      ap (λ o. elapsed_at (micros c.epoch now) (load o c')) (slot_of-set c id index value ∙ slot)
          ∙ ap (elapsed_at (micros c.epoch now))
              (get_elem?-set c.sent_micros index value (omega arith))
          ∙ ground arith,
      λ apart.
          ap (λ o. elapsed_at (micros c.epoch now) (load o c')) (slot_of-set c other index value)
          ∙ ap (elapsed_at (micros c.epoch now))
              (load-set_other c (slot_of c other) index value (slot_of-other c id other h apart)),
    )
