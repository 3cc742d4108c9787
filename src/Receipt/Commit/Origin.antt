-- ===== src/Receipt/Commit/Origin.antt =====
-- core/src/receipt.rs: where the receipt of a checked commit comes from, and what its checks have settled.
use redsuite.Prelude.{
  ensure-ok, ℕ, ◌≡◌, refl, ap, sym, ◌∙◌, ◌⊎◌, inl, inr, Bool, true, false, ◌||◌, Bool-cases, List,
  [], ◌∷◌, Option, none, some, ok, ensure, ok_or, >>=-eq-ok, eqb, eqb_iff, subst, if◌then◌else◌,
}
use redsuite.Receipt.Lines.{Line}
use redsuite.Receipt.{
  Pubkey, Signature, Parsers, CommitReceipt, ReceiptTarget, by_signature, outbox, after_slot,
  parse_logs, receipt_target_in_logs,
}
use redsuite.Receipt.History.{
  Transaction, ReceiptError, code_of, failed_commit, missing_target, unconfirmed,
}
use redsuite.Receipt.Watch.{listed, begin, Ended, receipt, broken, timed_out, fetch_by_intent}
use redsuite.Receipt.Watch.Sweeping.{IsFound}
use redsuite.Receipt.Watch.Outcome.{IsAnswered, fetch_by_intent-Found}
use redsuite.Receipt.Checks.{
  is_none, is_empty, bool_beq, is_duplicate, confirm_all, confirm, check_accounts, check_included,
  verify_failed, verify,
}
use redsuite.Receipt.Checks.Included.{SameKeys, check_included_iff}
use redsuite.Receipt.Commit.{Notice, Network, end_of, fetch_ended, dated, await_receipt, check}

ok_or-some : {A : Type 0} (o : Option A) (e : ReceiptError) (a : A) → ok_or o e ≡ ok a → o ≡ some a
ok_or-some none e a h = absurd (cc)
ok_or-some (some b) e a h = cc

is_none-eq : {A : Type 0} (o : Option A) → is_none o ≡ true → o ≡ none
is_none-eq none h = refl
is_none-eq (some a) h = absurd (cc)

is_empty-eq : (ks : List ℕ) → is_empty ks ≡ true → ks ≡ []
is_empty-eq [] h = refl
is_empty-eq (k ∷ ks) h = absurd (cc)

bool_beq-eq : (a b : Bool) → bool_beq a b ≡ true → a ≡ b
bool_beq-eq true true h = refl
bool_beq-eq true false h = absurd (cc)
bool_beq-eq false true h = absurd (cc)
bool_beq-eq false false h = refl

-- Every signature of a list is confirmed.
abbrev pub IsConfirmed : (Signature → Bool) → List Signature → Type 0
IsConfirmed is_confirmed signatures =
    (s : Signature) → listed signatures s ≡ true → is_confirmed s ≡ true

confirm_all-ok :
    (is_confirmed : Signature → Bool) (signatures : List Signature)
    → confirm_all is_confirmed signatures ≡ ok tt
    → IsConfirmed is_confirmed signatures
unfolding confirm_all
confirm_all-ok is_confirmed [] h s here = absurd (cc)
confirm_all-ok is_confirmed (u ∷ signatures) h s here =
    let (_, now, later) = >>=-eq-ok (ensure (is_confirmed u) unconfirmed) _ h in
    elim (Bool-cases (eqb u s)) [
      | inl same ↦
          subst (λ v. is_confirmed v ≡ true) ((eqb_iff u s).0 same)
            (ensure-ok (is_confirmed u) unconfirmed now)
      | inr other ↦ confirm_all-ok is_confirmed signatures later s (rw (other, ◌||◌) at here)
    ]

module _ (is_confirmed : Signature → Bool) (expected : List Pubkey) (undelegate : Bool) where
  -- A receipt tells of a duplicate that was rejected, or of the accounts expected and of transactions of the
  -- base layer that are all confirmed.
  abbrev pub IsVerified : CommitReceipt → Type 0
  IsVerified r =
      ((message : Line) × (r.error_message ≡ some message) × (is_duplicate message ≡ true))
      ⊎ ((r.error_message ≡ none)
          × SameKeys r.included expected
          × (r.excluded ≡ [])
          × (r.requested_undelegation ≡ undelegate)
          × IsConfirmed is_confirmed r.base_signatures)

  verify_failed-ok :
      (r : CommitReceipt) (message : Option Line)
      → r.error_message ≡ message
      → verify_failed is_confirmed expected undelegate r message ≡ ok tt
      → IsVerified r
  unfolding verify_failed check_accounts confirm
  verify_failed-ok r (some message) told h = elim (Bool-cases (is_duplicate message)) [
    | inl duplicate ↦ inl (message, told, duplicate)
    | inr other ↦ absurd (cc (rw (other, if◌then◌else◌) at h))
  ]
  verify_failed-ok r none told h =
      let (_, accounts, confirmed) = >>=-eq-ok (check_accounts expected undelegate r) _ h in
      let (_, keys, rest) = >>=-eq-ok (check_included expected r) _ accounts in
      let (_, excluded, undelegation) = >>=-eq-ok (ensure (is_empty r.excluded) _) _ rest in
      inr (
        told,
        (check_included_iff expected r).0 keys,
        is_empty-eq r.excluded (ensure-ok (is_empty r.excluded) _ excluded),
        bool_beq-eq r.requested_undelegation undelegate
            (ensure-ok (bool_beq r.requested_undelegation undelegate) _ undelegation),
        confirm_all-ok is_confirmed r.base_signatures confirmed,
      )

module _ (p : Parsers) (outbox_program : Pubkey) (network : Network) where
  -- A receipt of an outbox is that of a transaction read in the watch, which completes the intent and lies not before
  -- the transaction that scheduled the commit. The other is read from the logs of its own signature.
  abbrev pub IsFrom : Signature → ReceiptTarget → CommitReceipt → Type 0
  IsFrom s (by_signature u) r =
      (n : Notice) × (network.receipts u ≡ ok n) × (r ≡ parse_logs p u n.logs (code_of n.error))
  IsFrom s (outbox address intent_id min_slot) r =
      (t : Transaction) × (network.transaction s ≡ ok t)
      × IsFound p outbox_program intent_id t.slot
          (IsAnswered p outbox_program intent_id t.slot (network.turns address)) r

  -- The notice of the scheduling has no error, and its logs name the target that a receipt comes from.
  abbrev pub IsScheduled : Signature → CommitReceipt → Type 0
  IsScheduled s r =
      (n : Notice) × (target : ReceiptTarget) × (network.scheduling s ≡ ok n)
      × (n.error ≡ none)
      × (receipt_target_in_logs p n.logs ≡ some target)
      × IsFrom s target r

  end_of-ok :
      (intent_id min_slot : ℕ) (ended : Ended p outbox_program intent_id min_slot)
      (r : CommitReceipt)
      → end_of p outbox_program intent_id min_slot ended ≡ ok r
      → ended ≡ receipt r
  end_of-ok intent_id min_slot (receipt r') r h = cc
  end_of-ok intent_id min_slot broken r h = absurd (cc)
  end_of-ok intent_id min_slot (timed_out w) r h = absurd (cc)

  fetch_ended-Found :
      (address : Pubkey) (intent_id min_slot : ℕ) (r : CommitReceipt)
      → fetch_ended p outbox_program network address intent_id min_slot ≡ ok r
      → IsFound p outbox_program intent_id min_slot
          (IsAnswered p outbox_program intent_id min_slot (network.turns address))
          r
  unfolding fetch_ended
  fetch_ended-Found address intent_id min_slot r h =
      fetch_by_intent-Found p outbox_program intent_id min_slot (network.turns address) r (
        end_of-ok intent_id min_slot
          (fetch_by_intent p outbox_program intent_id min_slot (network.turns address) begin) r h)

  target-IsFrom :
      (s : Signature) (target later : ReceiptTarget) (r : CommitReceipt)
      → dated p outbox_program network s target ≡ ok later
      → await_receipt p outbox_program network later ≡ ok r
      → IsFrom s target r
  unfolding dated await_receipt after_slot
  target-IsFrom s (by_signature u) later r date h =
      let same : by_signature u ≡ later = cc in
      let (n, got, e) =
        >>=-eq-ok (network.receipts u) _
          (subst (λ t. await_receipt p outbox_program network t ≡ ok r) (sym same) h) in
      (n, got, cc (sym e))
  target-IsFrom s (outbox address intent_id min_slot) later r date h =
      let (t, got, e) = >>=-eq-ok (network.transaction s) _ date in
      let same : outbox address intent_id t.slot ≡ later = cc in
      (
        t,
        got,
        fetch_ended-Found address intent_id t.slot r
            (subst (λ o. await_receipt p outbox_program network o ≡ ok r) (sym same) h),
      )

  -- A check of a commit that succeeds has seen a notice of its scheduling without an error and with a target in its
  -- logs. The receipt comes from this target: for an outbox, from a completion of the intent that was read in the
  -- watch and lies not before the scheduling. The receipt tells of a duplicate that was rejected, or of the
  -- keys and the undelegation expected, of none excluded, and of base transactions that are all confirmed.
  pub check-IsVerified :
      (is_confirmed : Signature → Bool) (s : Signature) (expected : List Pubkey) (undelegate : Bool)
      (r : CommitReceipt)
      → check p outbox_program network is_confirmed s expected undelegate ≡ ok r
      → IsScheduled s r × IsVerified is_confirmed expected undelegate r
  unfolding check verify
  check-IsVerified is_confirmed s expected undelegate r h =
      let (n, scheduled, h₁) = >>=-eq-ok (network.scheduling s) _ h in
      let (_, clean, h₂) = >>=-eq-ok (ensure (is_none n.error) failed_commit) _ h₁ in
      let (target, named, h₃) =
        >>=-eq-ok (ok_or (receipt_target_in_logs p n.logs) missing_target) _ h₂ in
      let (later, date, h₄) = >>=-eq-ok (dated p outbox_program network s target) _ h₃ in
      let (r', read, h₅) = >>=-eq-ok (await_receipt p outbox_program network later) _ h₄ in
      let (_, verified, h₆) = >>=-eq-ok (verify is_confirmed expected undelegate r') _ h₅ in
      let same : r' ≡ r = cc in
      (
        (
          n,
          target,
          scheduled,
          is_none-eq n.error (ensure-ok (is_none n.error) failed_commit clean),
          ok_or-some (receipt_target_in_logs p n.logs) missing_target target named,
          target-IsFrom s target later r date (read ∙ ap ok same),
        ),
        subst (IsVerified is_confirmed expected undelegate) same
            (verify_failed-ok is_confirmed expected undelegate r' r'.error_message refl verified),
      )
