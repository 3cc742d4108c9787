-- ===== src/Receipt/Checks/Included.antt =====
-- core/src/receipt.rs: when the sorted keys of a receipt are those expected, and what its verification has
-- established.
use redsuite.Prelude.{
  ensure-ok, ℕ, ◌+◌, ◌≤◌, ◌<◌, ◌≡◌, ◌↔◌, refl, sym, ap, ap₂, ◌∙◌, inl, inr, true, false, ◌&&◌,
  Bool-cases, List, [], ◌∷◌, All, arith, if◌then◌else◌, ok, eqb, eqb_iff, leb, leb→le, ltb, ltb→lt,
}
use redsuite.Receipt.{Pubkey, CommitReceipt}
use redsuite.Receipt.History.{wrong_included}
use redsuite.Receipt.Checks.{insert_key, sort_keys, keys_beq, check_included}

-- How often a key stands in a list.
unfoldable pub count : Pubkey → List Pubkey → ℕ
count k [] = 0
count k (j ∷ js) = (if eqb k j then 1 else 0) + count k js

-- Two lists hold the same keys, each as often.
abbrev pub SameKeys : List Pubkey → List Pubkey → Type 0
SameKeys ks js = (k : Pubkey) → count k ks ≡ count k js

abbrev IsSorted : List Pubkey → Type 0
IsSorted [] = Unit
IsSorted (k ∷ ks) = All (λ j. k ≤ j) ks × IsSorted ks

count-insert_key :
    (k j : Pubkey) (ks : List Pubkey)
    → count k (insert_key j ks) ≡ (if eqb k j then 1 else 0) + count k ks
unfolding count insert_key
count-insert_key k j [] = refl
count-insert_key k j (i ∷ ks) = ground (arith, count-insert_key k j ks)

count-sort_keys : (k : Pubkey) (ks : List Pubkey) → count k (sort_keys ks) ≡ count k ks
unfolding sort_keys count
count-sort_keys k [] = refl
count-sort_keys k (j ∷ ks) =
    omega (arith, count-insert_key k j (sort_keys ks), count-sort_keys k ks)

All-insert_key :
    (b k : Pubkey) (ks : List Pubkey)
    → b ≤ k
    → All (λ j. b ≤ j) ks
    → All (λ j. b ≤ j) (insert_key k ks)
unfolding insert_key
All-insert_key b k [] le h = (le, tt)
All-insert_key b k (j ∷ ks) le h = elim (Bool-cases (leb k j)) [
  | inl before ↦ rw (before, if◌then◌else◌) (le, h)
  | inr after ↦ rw (after, if◌then◌else◌) (h.0, All-insert_key b k ks le h.1)
]

All-le_trans : (b k : Pubkey) (ks : List Pubkey) → b ≤ k → All (λ j. k ≤ j) ks → All (λ j. b ≤ j) ks
All-le_trans b k [] le h = tt
All-le_trans b k (j ∷ ks) le h = (omega (arith, h.0), All-le_trans b k ks le h.1)

insert_key-IsSorted : (k : Pubkey) (ks : List Pubkey) → IsSorted ks → IsSorted (insert_key k ks)
unfolding insert_key
insert_key-IsSorted k [] h = (tt, tt)
insert_key-IsSorted k (j ∷ ks) h = elim (Bool-cases (leb k j)) [
  | inl before ↦
      let le = leb→le k j before in rw (before, if◌then◌else◌) ((le, All-le_trans k j ks le h.0), h)
  | inr after ↦
      let le : j ≤ k = ground (arith, after) in
      rw (after, if◌then◌else◌) (All-insert_key j k ks le h.0, insert_key-IsSorted k ks h.1)
]

sort_keys-IsSorted : (ks : List Pubkey) → IsSorted (sort_keys ks)
unfolding sort_keys
sort_keys-IsSorted [] = tt
sort_keys-IsSorted (k ∷ ks) = insert_key-IsSorted k (sort_keys ks) (sort_keys-IsSorted ks)

count_below : (k b : Pubkey) (ks : List Pubkey) → k < b → All (λ j. b ≤ j) ks → count k ks ≡ 0
unfolding count
count_below k b [] lt h = refl
count_below k b (j ∷ ks) lt h = ground (arith, h.0, count_below k b ks lt h.1)

count_self : (k : Pubkey) (ks : List Pubkey) → 1 ≤ count k (k ∷ ks)
unfolding count
count_self k ks = ground (arith, eqb_iff k k)

not_less-eq : (k j : ℕ) → ltb k j ≡ false → ltb j k ≡ false → k ≡ j
not_less-eq k j h g = ground arith

-- The head of a sorted list with the same keys.
heads-eq :
    (k j : Pubkey) (ks js : List Pubkey)
    → IsSorted (k ∷ ks)
    → IsSorted (j ∷ js)
    → SameKeys (k ∷ ks) (j ∷ js)
    → k ≡ j
heads-eq k j ks js hk hj same = elim (Bool-cases (ltb k j)) [
  | inl less ↦
      let lt = ltb→lt k j less in
      absurd
        (omega (arith, same k, count_self k ks, count_below k j (j ∷ js) lt (omega arith, hj.0)))
  | inr not_less ↦ elim (Bool-cases (ltb j k)) [
    | inl more ↦
        let lt = ltb→lt j k more in
        absurd
          (omega (arith, same j, count_self j js, count_below j k (k ∷ ks) lt (omega arith, hk.0)))
    | inr not_more ↦ not_less-eq k j not_less not_more
  ]
]

sorted-eq : (ks js : List Pubkey) → IsSorted ks → IsSorted js → SameKeys ks js → ks ≡ js
unfolding count
sorted-eq [] [] hk hj same = refl
sorted-eq [] (j ∷ js) hk hj same = absurd (omega (arith, same j, count_self j js))
sorted-eq (k ∷ ks) [] hk hj same = absurd (omega (arith, same k, count_self k ks))
sorted-eq (k ∷ ks) (j ∷ js) hk hj same =
    let head = heads-eq k j ks js hk hj same in
    ap₂ (λ a as'. a ∷ as') head
      (sorted-eq ks js hk.1 hj.1
        (λ i. omega (arith, same i, ap {B = ℕ} (λ a. if eqb i a then 1 else 0) head)))

keys_beq_refl : (ks : List Pubkey) → keys_beq ks ks ≡ true
keys_beq_refl [] = refl
keys_beq_refl (k ∷ ks) = rw ((eqb_iff k k).1 refl, ◌&&◌) (keys_beq_refl ks)

keys_beq-eq : (ks js : List Pubkey) → keys_beq ks js ≡ true → ks ≡ js
keys_beq-eq [] [] h = refl
keys_beq-eq [] (j ∷ js) h = absurd (cc)
keys_beq-eq (k ∷ ks) [] h = absurd (cc)
keys_beq-eq (k ∷ ks) (j ∷ js) h = ground (arith, eqb_iff k j, keys_beq-eq ks js)

-- The keys of a receipt pass for the expected ones exactly when both hold the same keys, each as often, in
-- whatever order.
pub check_included_iff :
    (expected : List Pubkey) (r : CommitReceipt)
    → (check_included expected r ≡ ok tt) ↔ SameKeys r.included expected
unfolding check_included
check_included_iff expected r = (
  λ e k.
      sym (count-sort_keys k r.included)
      ∙ ap (count k) (
          keys_beq-eq (sort_keys r.included) (sort_keys expected)
            (ensure-ok (keys_beq (sort_keys r.included) (sort_keys expected)) wrong_included e))
      ∙ count-sort_keys k expected,
  λ same.
      let equal =
        sorted-eq (sort_keys r.included) (sort_keys expected) (sort_keys-IsSorted r.included)
          (sort_keys-IsSorted expected)
          (λ k. count-sort_keys k r.included ∙ same k ∙ sym (count-sort_keys k expected)) in
      rw (equal, keys_beq_refl (sort_keys expected)) refl,
)
