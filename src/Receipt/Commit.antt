-- ===== src/Receipt/Commit.antt =====
-- core/src/receipt.rs: `CommitWatch::check` and `check_commit`, from the scheduling of a commit to its checked
-- receipt. A notification for a signature, the transactions that are awaited and the turns of a watch are
-- arguments.
pub mod Origin
use redsuite.Prelude.{ℕ, Bool, List, Option, ok, err, ensure, ok_or, ◌>>=◌, ◌>>◌}
use redsuite.Receipt.Lines.{Line}
use redsuite.Receipt.{
  Pubkey, Signature, Parsers, CommitReceipt, ReceiptTarget, by_signature, outbox, after_slot,
  parse_logs, receipt_target_in_logs,
}
use redsuite.Receipt.History.{
  TransactionError, Transaction, Fallible, code_of, parse_receipt, transaction_meta,
  scheduled_receipt_target, failed_commit, missing_target, rpc_failed, unpublished,
}
use redsuite.Receipt.Watch.{
  begin, Update, Bodies, Ended, receipt, broken, timed_out, fetch_by_intent,
}
use redsuite.Receipt.Checks.{is_none, verify}

-- A notification of the logs of a transaction.
pub record Notice : Type 0 where
  pub error : Option TransactionError
  pub logs : List Line

-- What the interface gives while a commit is checked: the next notification for a signature, the transaction awaited
-- for one, and the turns of a watch on an address.
pub record Network : Type 0 where
  pub scheduling : Signature → Fallible Notice
  pub receipts : Signature → Fallible Notice
  pub transaction : Signature → Fallible Transaction
  pub turns : Pubkey → List (Bodies × Update)

module _ (p : Parsers) (outbox_program : Pubkey) where
  abbrev pub end_of :
      (intent_id min_slot : ℕ) → Ended p outbox_program intent_id min_slot → Fallible CommitReceipt
  end_of intent_id min_slot (receipt r) = ok r
  end_of intent_id min_slot broken = err rpc_failed
  end_of intent_id min_slot (timed_out w) = err unpublished

  module _ (network : Network) where
    -- `fetch_commit_receipt_by_intent`, and how it ends.
    unfoldable pub fetch_ended : Pubkey → ℕ → ℕ → Fallible CommitReceipt
    unfolding fetch_by_intent begin
    fetch_ended address intent_id min_slot =
        end_of intent_id min_slot
          (fetch_by_intent p outbox_program intent_id min_slot (network.turns address) begin)

    -- `fetch_receipt_for_target`
    unfoldable pub fetch_receipt_for_target : ReceiptTarget → Fallible CommitReceipt
    unfolding fetch_ended transaction_meta parse_receipt
    fetch_receipt_for_target (by_signature s) = do
      t ← network.transaction s
      m ← transaction_meta t
      ok (parse_receipt p outbox_program s m)
    fetch_receipt_for_target (outbox address intent_id min_slot) =
        fetch_ended address intent_id min_slot

    -- `fetch_commit_receipt`
    unfoldable pub fetch_commit_receipt : Signature → Fallible CommitReceipt
    unfolding fetch_receipt_for_target scheduled_receipt_target
    fetch_commit_receipt s = do
      t ← network.transaction s
      target ← scheduled_receipt_target p outbox_program t
      fetch_receipt_for_target target

    -- `ErCtx::check_commit`
    unfoldable pub check_commit :
        (Signature → Bool) → Signature → List Pubkey → Bool → Fallible CommitReceipt
    unfolding fetch_commit_receipt verify
    check_commit is_confirmed s expected undelegation = do
      r ← fetch_commit_receipt s
      verify is_confirmed expected undelegation r
      ok r

    -- The target of an outbox starts at the slot of the transaction that scheduled the commit.
    unfoldable pub dated : Signature → ReceiptTarget → Fallible ReceiptTarget
    unfolding after_slot
    dated s (by_signature r) = ok (by_signature r)
    dated s (outbox address intent_id min_slot) = do
      t ← network.transaction s
      ok (after_slot t.slot (outbox address intent_id min_slot))

    unfoldable pub await_receipt : ReceiptTarget → Fallible CommitReceipt
    unfolding parse_logs fetch_ended
    await_receipt (by_signature s) = do
      n ← network.receipts s
      ok (parse_logs p s n.logs (code_of n.error))
    await_receipt (outbox address intent_id min_slot) = fetch_ended address intent_id min_slot

    -- `CommitWatch::check`
    unfoldable pub check :
        (Signature → Bool) → Signature → List Pubkey → Bool → Fallible CommitReceipt
    unfolding receipt_target_in_logs dated await_receipt verify
    check is_confirmed s expected undelegate = do
      n ← network.scheduling s
      ensure (is_none n.error) failed_commit
      target ← ok_or (receipt_target_in_logs p n.logs) missing_target
      later ← dated s target
      r ← await_receipt later
      verify is_confirmed expected undelegate r
      ok r
