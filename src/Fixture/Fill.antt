-- ===== src/Fixture/Fill.antt =====
-- programs/fixture/src/state.rs: what `CellHeader::fill` writes.
use redsuite.Prelude.{
  ℕ, zero, suc, ◌+◌, ◌-◌, ◌*◌, ◌/◌, ◌%◌, ◌≤◌, ◌<◌, ◌≡◌, refl, ap, ◌∙◌, List, [], ◌∷◌, arith, length,
  get_elem?, take, drop, length-append, length-take, length-drop, le_bytes, u64_mod, min, ltb→lt,
  Bool-cases, inl, inr, ltb, get_elem?-append-lt, get_elem?-append-ge, get_elem?-take,
}
use redsuite.Fixture.Cell.{fill_word, fill_from, fill}

length-fill_word : (seed step index : ℕ) → length (fill_word seed step index) ≡ 8
unfolding fill_word
length-fill_word seed step index = refl

length-chunk :
    (seed step index : ℕ) (p : List ℕ)
    → length (take (length (take 8 p)) (fill_word seed step index)) ≡ min 8 (length p)
length-chunk seed step index p = omega (
  arith,
  length-take (length (take 8 p)) (fill_word seed step index),
  length-take 8 p,
  length-fill_word seed step index,
)

length-fill_from :
    (fuel seed step index : ℕ) (p : List ℕ)
    → length p ≤ fuel * 8
    → length (fill_from fuel seed step index p) ≡ length p
unfolding fill_from
length-fill_from zero seed step index p h = refl
length-fill_from (suc fuel) seed step index [] h = refl
length-fill_from (suc fuel) seed step index (b ∷ bs) h =
    let p = b ∷ bs in
    let len = length-drop 8 p in
    omega (
      arith,
      length-append (take (length (take 8 p)) (fill_word seed step index))
          (fill_from fuel seed step (index + 1) (drop 8 p)),
      length-chunk seed step index p,
      len,
      length-fill_from fuel seed step (index + 1) (drop 8 p) (omega arith),
    )

-- Filling keeps the length of the payload.
pub length-fill : (p : List ℕ) (seed step : ℕ) → length (fill p seed step) ≡ length p
unfolding fill
length-fill p seed step = length-fill_from (length p) seed step 0 p (omega arith)

get_elem?-fill_from :
    (fuel seed step index : ℕ) (p : List ℕ) (i : ℕ)
    → length p ≤ fuel * 8
    → i < length p
    → get_elem? (fill_from fuel seed step index p) i
      ≡ get_elem? (fill_word seed step (index + i / 8)) (i % 8)
unfolding fill_from
get_elem?-fill_from zero seed step index p i h k = absurd (omega arith)
get_elem?-fill_from (suc fuel) seed step index [] i h k = absurd (omega arith)
get_elem?-fill_from (suc fuel) seed step index (b ∷ bs) i h k =
    let p = b ∷ bs in
    let word = fill_word seed step index in
    let n = length (take 8 p) in
    let rest = fill_from fuel seed step (index + 1) (drop 8 p) in
    let size = length-chunk seed step index p in
    let cut = length-take 8 p in
    elim (Bool-cases (ltb i 8)) [
      | inl low ↦
          let lt = ltb→lt i 8 low in
          get_elem?-append-lt (take n word) rest i (omega arith)
          ∙ get_elem?-take n word i (omega arith)
          ∙ ap (λ j. get_elem? (fill_word seed step j) i) (omega arith)
          ∙ ap (get_elem? (fill_word seed step (index + i / 8))) (omega arith)
      | inr high ↦
          let ge : 8 ≤ i = ground arith in
          let len = length-drop 8 p in
          get_elem?-append-ge (take n word) rest i (omega arith)
          ∙ ap (get_elem? rest) (omega arith)
          ∙ get_elem?-fill_from fuel seed step (index + 1) (drop 8 p) (i - 8) (omega arith)
              (omega arith)
          ∙ ap (λ j. get_elem? (fill_word seed step j) ((i - 8) % 8)) (omega arith)
          ∙ ap (get_elem? (fill_word seed step (index + i / 8))) (omega arith)
    ]

-- Every byte of a filled payload, the last partial word's too, is the byte at its place in the
-- little-endian word `(seed + (i / 8) * step) mod 2 ^ 64`.
pub get_elem?-fill :
    (p : List ℕ) (seed step i : ℕ)
    → i < length p
    → get_elem? (fill p seed step) i
      ≡ get_elem? (le_bytes 8 ((seed + i / 8 * step % u64_mod) % u64_mod)) (i % 8)
unfolding fill fill_word
get_elem?-fill p seed step i h =
    get_elem?-fill_from (length p) seed step 0 p i (omega arith) h
    ∙ ap (λ j. get_elem? (fill_word seed step j) (i % 8)) (omega arith)
