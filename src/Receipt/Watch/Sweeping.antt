-- ===== src/Receipt/Watch/Sweeping.antt =====
-- core/src/receipt.rs: what a pass over the pending signatures of a watch leaves, and what it finds.
use redsuite.Prelude.{
  ltb-false-le, ℕ, ◌≤◌, ◌≡◌, refl, sym, ap, subst, ◌∙◌, ◌⊎◌, inl, inr, true, ◌||◌, Bool-cases, List,
  [], ◌∷◌, Option, none, some, ok, err, eqb, eqb_iff, if◌then◌else◌, ltb,
}
use redsuite.Receipt.{Pubkey, Signature, Parsers, CommitReceipt}
use redsuite.Receipt.History.{
  Transaction, Fallible, receipt_of, completion_after, parse_outbox_completion, with_intent, has_id,
  is_some_of,
}
use redsuite.Receipt.Watch.{
  listed, Bodies, Read, finds, stays, passes, read_receipt, read_body, Swept, found, left,
  sweep_one, sweep,
}

is_some_of-some : (o : Option ℕ) (n : ℕ) → is_some_of o n ≡ true → o ≡ some n
is_some_of-some none n h = absurd (cc)
is_some_of-some (some m) n h = ap some ((eqb_iff m n).0 h)

module _ (p : Parsers) (outbox_program : Pubkey) (intent_id min_slot : ℕ) where
  -- A receipt is that of a transaction read, which is a completion of the intent and not before the slot.
  abbrev pub IsFound : (Signature → Transaction → Type 0) → CommitReceipt → Type 0
  IsFound Answered r =
      (s : Signature) × (t : Transaction) × Answered s t
      × (min_slot ≤ t.slot)
      × (parse_outbox_completion p outbox_program s t ≡ some r)
      × (r.commit_id ≡ some intent_id)

  left-one :
      (u : Signature) (read : Read p outbox_program intent_id min_slot)
      (later : Swept p outbox_program intent_id min_slot) (q' : List Signature)
      → sweep_one p outbox_program intent_id min_slot u read later ≡ left q'
      → (rest : List Signature) × (later ≡ left rest)
        × (((read ≡ stays) × (q' ≡ u ∷ rest)) ⊎ ((read ≡ passes) × (q' ≡ rest)))
  left-one u (finds r) later q' e = absurd (cc)
  left-one u stays (found r) q' e = absurd (cc)
  left-one u stays (left rest) q' e = (rest, refl, inl (refl, cc))
  left-one u passes (found r) q' e = absurd (cc)
  left-one u passes (left rest) q' e = (rest, refl, inr (refl, cc))

  found-one :
      (u : Signature) (read : Read p outbox_program intent_id min_slot)
      (later : Swept p outbox_program intent_id min_slot) (r : CommitReceipt)
      → sweep_one p outbox_program intent_id min_slot u read later ≡ found r
      → (read ≡ finds r) ⊎ (later ≡ found r)
  found-one u (finds r') later r e = inl (cc)
  found-one u stays (found r') r e = inr e
  found-one u stays (left rest) r e = absurd (cc)
  found-one u passes later r e = inr e

  read_receipt-finds :
      (o : Option CommitReceipt) (r : CommitReceipt)
      → read_receipt p outbox_program intent_id min_slot o ≡ finds r
      → o ≡ some r
  read_receipt-finds none r e = absurd (cc)
  read_receipt-finds (some r') r e = cc

  read_body-finds :
      (s : Signature) (o : Fallible (Option Transaction)) (r : CommitReceipt)
      → read_body p outbox_program intent_id min_slot s o ≡ finds r
      → (t : Transaction) × (o ≡ ok (some t))
        × (receipt_of p outbox_program intent_id min_slot s (some t) ≡ some r)
  unfolding read_body
  read_body-finds s (err failure) r e = absurd (cc)
  read_body-finds s (ok none) r e = absurd (cc)
  read_body-finds s (ok (some t)) r e =
      (t, refl, read_receipt-finds (receipt_of p outbox_program intent_id min_slot s (some t)) r e)

  with_intent-some :
      (o : Option CommitReceipt) (r : CommitReceipt)
      → with_intent intent_id o ≡ some r
      → (o ≡ some r) × (r.commit_id ≡ some intent_id)
  with_intent-some none r e = absurd (cc)
  with_intent-some (some found_one) r e = elim (Bool-cases (has_id intent_id found_one)) [
    | inl same ↦
        let this : found_one ≡ r = cc (rw (same, if◌then◌else◌) at e) in
        (
          ap some this,
          ap CommitReceipt.commit_id (sym this)
              ∙ is_some_of-some found_one.commit_id intent_id same,
        )
    | inr other ↦ absurd (cc (rw (other, if◌then◌else◌) at e))
  ]

  receipt_of-some :
      (s : Signature) (t : Transaction) (r : CommitReceipt)
      → receipt_of p outbox_program intent_id min_slot s (some t) ≡ some r
      → (min_slot ≤ t.slot)
        × (parse_outbox_completion p outbox_program s t ≡ some r)
        × (r.commit_id ≡ some intent_id)
  unfolding receipt_of completion_after
  receipt_of-some s t r e =
      let (kept, id) = with_intent-some (completion_after p outbox_program min_slot s t) r e in
      elim (Bool-cases (ltb t.slot min_slot)) [
        | inl early ↦ absurd (cc (rw (early, if◌then◌else◌) at kept))
        | inr late ↦ (ltb-false-le t.slot min_slot late, rw (late, if◌then◌else◌) at kept, id)
      ]

  abbrev pub sweeps : Bodies → List Signature → Swept p outbox_program intent_id min_slot
  sweeps = sweep p outbox_program intent_id min_slot

  pub sweep-left :
      (bodies : Bodies) (q q' : List Signature) (s : Signature)
      → sweeps bodies q ≡ left q'
      → listed q s ≡ true
      → (listed q' s ≡ true) ⊎ (read_body p outbox_program intent_id min_slot s (bodies s) ≡ passes)
  unfolding sweep
  sweep-left bodies [] q' s e h = absurd (cc)
  sweep-left bodies (u ∷ q) q' s e h =
      let (rest, later, how) =
        left-one u (read_body p outbox_program intent_id min_slot u (bodies u)) (sweeps bodies q) q'
          e in
      elim (Bool-cases (eqb u s)) [
        | inl same ↦
            let at = (eqb_iff u s).0 same in
            elim how [
              | inl (stay, whole) ↦ inl (rw whole (ap (λ b. b || listed rest s) same))
              | inr (pass, whole) ↦ inr (
                  subst (λ v. read_body p outbox_program intent_id min_slot v (bodies v) ≡ passes)
                    at pass)
            ]
        | inr other ↦
            let inner : (listed rest s ≡ true)
                ⊎ (read_body p outbox_program intent_id min_slot s (bodies s) ≡ passes) =
              sweep-left bodies q rest s later (rw (other, ◌||◌) at h) in
            elim inner [
              | inl still ↦ elim how [
                | inl (stay, whole) ↦ inl (rw (whole, other, ◌||◌) still)
                | inr (pass, whole) ↦ inl (rw whole still)
              ]
              | inr out ↦ inr out
            ]
      ]

  pub sweep-found :
      (bodies : Bodies) (q : List Signature) (r : CommitReceipt)
      → sweeps bodies q ≡ found r
      → IsFound (λ s t. bodies s ≡ ok (some t)) r
  unfolding sweep read_body
  sweep-found bodies [] r e = absurd (cc)
  sweep-found bodies (u ∷ q) r e =
      elim (found-one u (read_body p outbox_program intent_id min_slot u (bodies u))
        (sweeps bodies q) r e) [
          | inl here ↦
              let (t, answer, kept) = read_body-finds u (bodies u) r here in
              let (late, whole, id) = receipt_of-some u t r kept in (u, t, answer, late, whole, id)
          | inr later ↦ sweep-found bodies q r later
        ]
