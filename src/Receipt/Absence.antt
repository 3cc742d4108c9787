-- ===== src/Receipt/Absence.antt =====
-- core/src/receipt.rs: what `ensure_receipt_absent` has seen when it succeeds.
use redsuite.Prelude.{
  ltb-false, ℕ, zero, suc, ◌+◌, ◌<◌, ◌≤◌, ◌≡◌, refl, sym, ap, ap₂, ◌∙◌, inl, inr, Bool, true, false,
  not, ◌&&◌, Bool-cases, List, [], ◌∷◌, Option, none, some, All, eqb_iff, arith, if◌then◌else◌, ok,
  >>=-eq-ok,
}
use redsuite.Receipt.{Pubkey, Signature, Parsers, CommitReceipt, outbox}
use redsuite.Receipt.History.{
  Transaction, Fallible, Api, parse_outbox_completion, completion_after, is_some_of, is_paid_intent,
  is_present, judge, look_through, absent_from, ensure_receipt_absent, attempts,
}

bool-inj : (a b : Bool) → ◌≡◌ {A = Fallible Bool} (ok a) (ok b) → a ≡ b
bool-inj a b e = cc

module _ (p : Parsers) (outbox_program : Pubkey) (intent_id min_slot : ℕ) (payer : Pubkey) where
  -- A transaction is no completion of the intent that the payer paid for, from the slot on.
  abbrev pub NotCompletion : Signature → Transaction → Type 0
  NotCompletion s t =
      (r : CommitReceipt)
      → min_slot ≤ t.slot
      → parse_outbox_completion p outbox_program s t ≡ some r
      → r.commit_id ≡ some intent_id
      → r.payer ≡ some payer
      → ⊥

  abbrev pub IsRead : Api → Signature → Type 0
  IsRead api s = (t : Transaction) × (api.transaction s ≡ ok (some t)) × NotCompletion s t

  -- The history of an address, as the interface lists it, is read whole and holds no completion.
  abbrev pub IsClear : Api → Pubkey → Type 0
  IsClear api address =
      (signatures : List Signature) × (api.signatures address ≡ ok signatures)
      × All (IsRead api) signatures

  not_present :
      (s : Signature) (t : Transaction)
      → is_present p outbox_program intent_id min_slot payer s t ≡ false
      → NotCompletion s t
  unfolding is_present completion_after
  not_present s t e r late completion id paid =
      let found : completion_after p outbox_program min_slot s t ≡ some r =
        rw (ltb-false t.slot min_slot late, if◌then◌else◌) completion in
      let same_id = ap (λ i. is_some_of i intent_id) id ∙ (eqb_iff intent_id intent_id).1 refl in
      let same_payer = ap (λ k. is_some_of k payer) paid ∙ (eqb_iff payer payer).1 refl in
      let present : is_paid_intent intent_id payer (some r) ≡ true =
        ap₂ (λ a b. a && b) same_id same_payer in
      cc (sym e ∙ ap (is_paid_intent intent_id payer) found ∙ present)

  judge-ok :
      (api : Api) (s : Signature) (o : Option Transaction) (unreadable : Bool)
      → judge p outbox_program intent_id min_slot payer s o unreadable ≡ ok false
      → (unreadable ≡ false) × ((t : Transaction) × (o ≡ some t) × NotCompletion s t)
  unfolding judge
  judge-ok api s none unreadable e = absurd (cc)
  judge-ok api s (some t) unreadable e =
      elim (Bool-cases (is_present p outbox_program intent_id min_slot payer s t)) [
        | inl present ↦ absurd (cc (rw (present, not) at e))
        | inr absent ↦
            (bool-inj unreadable false (rw (absent, not) at e), (t, refl, not_present s t absent))
      ]

  look-Clear :
      (api : Api) (signatures : List Signature) (unreadable : Bool)
      → look_through p outbox_program api intent_id min_slot payer signatures unreadable ≡ ok false
      → (unreadable ≡ false) × All (IsRead api) signatures
  unfolding look_through
  look-Clear api [] unreadable e = (bool-inj unreadable false e, tt)
  look-Clear api (s ∷ signatures) unreadable e =
      let (o, got, e₁) = >>=-eq-ok (api.transaction s) _ e in
      let (seen, judged, e₂) =
        >>=-eq-ok (judge p outbox_program intent_id min_slot payer s o unreadable) _ e₁ in
      let (clean, rest) = look-Clear api signatures seen e₂ in
      let (before, (t, same, absent)) = judge-ok api s o unreadable (judged ∙ ap ok clean) in
      (before, ((t, got ∙ ap ok same, absent), rest))

  absent_from-Clear :
      (apis : ℕ → Api) (address : Pubkey) (left attempt : ℕ)
      → absent_from p outbox_program apis address intent_id min_slot payer left attempt ≡ ok tt
      → (k : ℕ) × (k < attempt + left) × IsClear (apis k) address
  unfolding absent_from
  absent_from-Clear apis address zero attempt e = absurd (cc)
  absent_from-Clear apis address (suc left) attempt e =
      let (signatures, listed, e₁) = >>=-eq-ok ((apis attempt).signatures address) _ e in
      let (unreadable, looked, e₂) =
        >>=-eq-ok
          (look_through p outbox_program (apis attempt) intent_id min_slot payer signatures false) _
          e₁ in
      elim (Bool-cases unreadable) [
        | inl again ↦
            let (k, lt, clear) =
              absent_from-Clear apis address left (attempt + 1) (rw again at e₂) in
            (k, omega arith, clear)
        | inr whole ↦
            let (_, all) = look-Clear (apis attempt) signatures false (looked ∙ ap ok whole) in
            (attempt, omega arith, (signatures, listed, all))
      ]

  -- Where the absence of a receipt of an outbox is established, one of its five attempts listed a history of which
  -- every transaction was read, and none of these is, from the slot on, a completion of the intent
  -- that the payer paid for.
  pub ensure_receipt_absent-Clear :
      (apis : ℕ → Api) (address : Pubkey)
      → ensure_receipt_absent p outbox_program apis (outbox address intent_id min_slot) payer
        ≡ ok tt
      → (k : ℕ) × (k < attempts) × IsClear (apis k) address
  unfolding ensure_receipt_absent
  ensure_receipt_absent-Clear apis address e = absent_from-Clear apis address 5 0 e
