-- ===== src/Receipt/History.antt =====
-- core/src/receipt.rs: completions in the history of an outbox, and the checks of a receipt. What the RPC
-- interface answers is an argument, and so is the decoding of a transaction.
use redsuite.Prelude.{
  ℕ, zero, suc, ◌+◌, Bool, true, false, ◌&&◌, not, List, [], ◌∷◌, Option, none, some, eqb,
  if◌then◌else◌, Result, ok, err, ensure, ◌>>=◌, ◌>>◌, any, ltb, get_elem?, ok_or,
}
use redsuite.Receipt.Lines.{Line}
use redsuite.Receipt.{
  Pubkey, Signature, Parsers, CommitReceipt, ReceiptTarget, by_signature, outbox, parse_logs,
  receipt_target_in_logs, after_slot, intent_id_in_logs,
}

-- `TransactionError`, as far as it is told apart.
pub data TransactionError : Type 0 where
  custom : ℕ → TransactionError
  other_error : TransactionError

-- `custom_error_code`
unfoldable pub custom_error_code : TransactionError → Option ℕ
custom_error_code (custom code) = some code
custom_error_code other_error = none

pub record Meta : Type 0 where
  pub error : Option TransactionError
  pub log_messages : Option (List Line)

-- A decoded message: its static account keys, and the program indices of its instructions.
pub record Decoded : Type 0 where
  pub keys : List Pubkey
  pub program_indices : List ℕ

pub record Transaction : Type 0 where
  pub slot : ℕ
  pub execution : Option Meta
  pub decoded : Option Decoded

-- `transaction_logs`
unfoldable pub transaction_logs : Meta → List Line
transaction_logs m = elim m.log_messages [ none ↦ [] | some logs ↦ logs ]

abbrev pub code_of : Option TransactionError → Option ℕ
code_of none = none
code_of (some e) = custom_error_code e

-- The errors of the checks and of the RPC interface.
pub data ReceiptError : Type 0 where
  rpc_failed unpublished missing_meta failed_commit missing_target missing_intent : ReceiptError
  receipt_visible unresolved : ReceiptError
  wrong_included some_excluded wrong_undelegation : ReceiptError
  intent_failed : Line → ReceiptError
  settlement_failed missing_base unconfirmed : ReceiptError

abbrev pub Fallible : Type 0 → Type 0
Fallible A = Result ReceiptError A

-- `transaction_meta`
unfoldable pub transaction_meta : Transaction → Fallible Meta
transaction_meta t = ok_or t.execution missing_meta

-- What the RPC interface answers while a check runs.
pub record Api : Type 0 where
  pub signatures : Pubkey → Fallible (List Signature)
  pub transaction : Signature → Fallible (Option Transaction)

-- `Option<u64> == Some(n)`
abbrev pub is_some_of : Option ℕ → ℕ → Bool
is_some_of none n = false
is_some_of (some m) n = eqb m n

abbrev pub has_id : ℕ → CommitReceipt → Bool
has_id intent_id r = is_some_of r.commit_id intent_id

abbrev pub paid_by : Pubkey → CommitReceipt → Bool
paid_by payer r = is_some_of r.payer payer

abbrev pub with_intent : ℕ → Option CommitReceipt → Option CommitReceipt
with_intent intent_id none = none
with_intent intent_id (some r) = if has_id intent_id r then some r else none

abbrev pub is_paid_intent : ℕ → Pubkey → Option CommitReceipt → Bool
is_paid_intent intent_id payer none = false
is_paid_intent intent_id payer (some r) = has_id intent_id r && paid_by payer r

abbrev pub attempts : ℕ
attempts = 5

module _ (p : Parsers) (outbox_program : Pubkey) where
  -- `parse_receipt`
  unfoldable pub parse_receipt : Signature → Meta → CommitReceipt
  unfolding transaction_logs custom_error_code
  parse_receipt s m = parse_logs p s (transaction_logs m) (code_of m.error)

  -- Whether an instruction of the message is one of the outbox program.
  unfoldable pub names_outbox : Decoded → Bool
  names_outbox d =
      any (λ i. elim (get_elem? d.keys i) [ none ↦ false | some k ↦ eqb k outbox_program ])
        d.program_indices

  abbrev pub with_id : CommitReceipt → Option CommitReceipt
  with_id r = elim r.commit_id [ none ↦ none | some id ↦ some r ]

  abbrev pub completed :
      Signature → Meta → Option TransactionError → Option Decoded → Option CommitReceipt
  completed s m (some e) d = none
  completed s m none none = none
  completed s m none (some d) = if names_outbox d then with_id (parse_receipt s m) else none

  -- `parse_outbox_completion`
  unfoldable pub parse_outbox_completion : Signature → Transaction → Option CommitReceipt
  unfolding parse_receipt names_outbox
  parse_outbox_completion s t = elim t.execution [
    | none ↦ none
    | some m ↦ completed s m m.error t.decoded
  ]

  -- The receipt of a transaction of the history that counts: not before the slot, and of a completion.
  unfoldable pub completion_after : ℕ → Signature → Transaction → Option CommitReceipt
  unfolding parse_outbox_completion
  completion_after min_slot s t = if ltb t.slot min_slot then none else parse_outbox_completion s t

  -- The receipt of an intent in a transaction of the history.
  unfoldable pub receipt_of : ℕ → ℕ → Signature → Option Transaction → Option CommitReceipt
  unfolding completion_after
  receipt_of intent_id min_slot s none = none
  receipt_of intent_id min_slot s (some t) = with_intent intent_id (completion_after min_slot s t)

  -- Whether a transaction of the history is the completion that must be absent.
  unfoldable pub is_present : ℕ → ℕ → Pubkey → Signature → Transaction → Bool
  unfolding completion_after
  is_present intent_id min_slot payer s t =
      is_paid_intent intent_id payer (completion_after min_slot s t)

  -- What the body of a transaction of the history, if it can be read, makes of the flag for
  -- unreadable bodies.
  unfoldable pub judge : ℕ → ℕ → Pubkey → Signature → Option Transaction → Bool → Fallible Bool
  unfolding is_present
  judge intent_id min_slot payer s none unreadable = ok true
  judge intent_id min_slot payer s (some t) unreadable =
      ensure (not (is_present intent_id min_slot payer s t)) receipt_visible >> ok unreadable

  module _ (api : Api) where
    unfoldable pub search_history : ℕ → ℕ → List Signature → Fallible (Option CommitReceipt)
    unfolding receipt_of
    search_history intent_id min_slot [] = ok none
    search_history intent_id min_slot (s ∷ signatures) =
        let rest = search_history intent_id min_slot signatures in
        api.transaction s >>= λ t. elim (receipt_of intent_id min_slot s t) [
          | some r ↦ ok (some r)
          | none ↦ rest
        ]

    abbrev pub receipt_if_any : Signature → Option Transaction → Fallible (Option CommitReceipt)
    receipt_if_any s none = ok none
    receipt_if_any s (some t) = do m ← transaction_meta t; ok (some (parse_receipt s m))

    -- `receipt_for_target_if_present`
    unfoldable pub receipt_for_target_if_present : ReceiptTarget → Fallible (Option CommitReceipt)
    unfolding search_history transaction_meta parse_receipt
    receipt_for_target_if_present (by_signature s) = do t ← api.transaction s; receipt_if_any s t
    receipt_for_target_if_present (outbox address intent_id min_slot) = do
      signatures ← api.signatures address
      search_history intent_id min_slot signatures

    -- One look through the history: whether a body was unreadable.
    unfoldable pub look_through : ℕ → ℕ → Pubkey → List Signature → Bool → Fallible Bool
    unfolding judge
    look_through intent_id min_slot payer [] unreadable = ok unreadable
    look_through intent_id min_slot payer (s ∷ signatures) unreadable = do
      t ← api.transaction s
      seen ← judge intent_id min_slot payer s t unreadable
      look_through intent_id min_slot payer signatures seen

  -- The attempts of `ensure_receipt_absent` that are left, from the one with a number on.
  unfoldable pub absent_from : (ℕ → Api) → Pubkey → ℕ → ℕ → Pubkey → ℕ → ℕ → Fallible (Unit {0})
  unfolding look_through
  absent_from apis address intent_id min_slot payer zero attempt = err unresolved
  absent_from apis address intent_id min_slot payer (suc left) attempt =
      let later = absent_from apis address intent_id min_slot payer left (attempt + 1) in
      (apis attempt).signatures address >>= λ signatures.
      look_through (apis attempt) intent_id min_slot payer signatures false >>= λ unreadable.
      if unreadable then later else ok tt

  abbrev pub ensure_none : Option CommitReceipt → Fallible (Unit {0})
  ensure_none none = ok tt
  ensure_none (some r) = err receipt_visible

  -- `ensure_receipt_absent`, with what the interface answers in each attempt.
  unfoldable pub ensure_receipt_absent : (ℕ → Api) → ReceiptTarget → Pubkey → Fallible (Unit {0})
  unfolding absent_from receipt_for_target_if_present
  ensure_receipt_absent apis (by_signature s) payer = do
    found ← receipt_for_target_if_present (apis 0) (by_signature s)
    ensure_none found
  ensure_receipt_absent apis (outbox address intent_id min_slot) payer =
      absent_from apis address intent_id min_slot payer attempts 0

  -- `scheduled_receipt_target`, of the transaction that scheduled the commit.
  unfoldable pub scheduled_receipt_target : Transaction → Fallible ReceiptTarget
  unfolding transaction_meta transaction_logs receipt_target_in_logs after_slot
  scheduled_receipt_target t = do
    m ← transaction_meta t
    ensure (elim m.error [ none ↦ true | some e ↦ false ]) failed_commit
    target ← ok_or (receipt_target_in_logs p (transaction_logs m)) missing_target
    ok (after_slot t.slot target)

-- `scheduled_intent_id`
unfoldable pub scheduled_intent_id : Transaction → Fallible ℕ
unfolding transaction_meta transaction_logs intent_id_in_logs
scheduled_intent_id t = do
  m ← transaction_meta t
  ok_or (intent_id_in_logs (transaction_logs m)) missing_intent
