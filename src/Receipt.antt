-- ===== src/Receipt.antt =====
-- core/src/receipt.rs: the receipts of scheduled commits, as the logs of a validator tell them. The texts of keys and
-- signatures are parsed by the SDK: `Parsers` is an argument.
pub mod Lines
pub mod History
pub mod Absence
pub mod Watch
pub mod Checks
pub mod Printed
pub mod Commit
mod Tests
use redsuite.Prelude.{
  ℕ, Bool, true, false, ◌&&◌, List, [], ◌∷◌, ◌++◌, Option, none, some, eqb, if◌then◌else◌,
}
use redsuite.Receipt.Lines.{
  Line, codes, strip_prefix, trim, trim_start_by, trim_end_by, split, after_first, parse_u64,
  list_of, parse_all,
}

abbrev pub Pubkey : Type 0
Pubkey = ℕ

abbrev pub Signature : Type 0
Signature = ℕ

pub record Parsers : Type 0 where
  pub parse_key : Line → Option Pubkey
  pub parse_signature : Line → Option Signature

pub record CommitReceipt : Type 0 where
  pub signature : Signature
  pub commit_id : Option ℕ
  pub payer : Option Pubkey
  pub included : List Pubkey
  pub excluded : List Pubkey
  pub base_signatures : List Signature
  pub requested_undelegation : Bool
  pub error_message : Option Line
  pub receipt_err_code : Option ℕ

pub data ReceiptTarget : Type 0 where
  by_signature : Signature → ReceiptTarget
  outbox : (address : Pubkey) → (intent_id min_slot : ℕ) → ReceiptTarget

-- `ReceiptTarget::after_slot`
unfoldable pub after_slot : ℕ → ReceiptTarget → ReceiptTarget
after_slot min_slot (by_signature s) = by_signature s
after_slot min_slot (outbox address intent_id _) = outbox address intent_id min_slot

abbrev pub and_then : {A B : Type 0} → Option A → (A → Option B) → Option B
and_then none f = none
and_then (some a) f = f a

abbrev pub or_line : Option Line → Line → Line
or_line none s = s
or_line (some rest) s = rest

-- `strip_program_prefix`
unfoldable pub strip_program_prefix : Line → Line
unfolding strip_prefix
strip_program_prefix s = or_line (strip_prefix (codes "Program log: ") s) s

-- `iter().find_map(…)`
unfoldable pub find_map : {B : Type 0} → (Line → Option B) → List Line → Option B
find_map f [] = none
find_map f (s ∷ logs) = let rest = find_map f logs in elim (f s) [ none ↦ rest | some b ↦ some b ]

-- What a line tells behind a marker.
unfoldable pub marked : {B : Type 0} → Line → (Line → Option B) → Line → Option B
unfolding strip_program_prefix trim
marked marker parse s =
    and_then (strip_prefix marker (strip_program_prefix s)) (λ rest. parse (trim rest))

-- `intent_id_in_logs`
unfoldable pub intent_id_in_logs : List Line → Option ℕ
unfolding find_map marked
intent_id_in_logs = find_map (marked (codes "Scheduled commit with ID: ") parse_u64)

abbrev pub first_token : List Line → Option ℕ
first_token [] = none
first_token (token ∷ tokens) = parse_u64 (trim token)

abbrev pub on_field : Option Line → (Line → CommitReceipt) → CommitReceipt → CommitReceipt
on_field none f r = r
on_field (some rest) f r = f rest

abbrev pub line_beq : Line → Line → Bool
line_beq [] [] = true
line_beq (c ∷ s) (d ∷ t) = eqb c d && line_beq s t
line_beq _ _ = false

abbrev pub empty_receipt : Signature → Option ℕ → CommitReceipt
empty_receipt s code = record {
  signature = s;
  commit_id = none;
  payer = none;
  included = [];
  excluded = [];
  base_signatures = [];
  requested_undelegation = false;
  error_message = none;
  receipt_err_code = code;
}

abbrev pub outbox_target : Option ℕ → Pubkey → Option ReceiptTarget
outbox_target none address = none
outbox_target (some id) address = some (outbox address id 0)

abbrev pub signature_target : Option Signature → Option ReceiptTarget
signature_target none = none
signature_target (some s) = some (by_signature s)

module _ (p : Parsers) where
  open p use {parse_key, parse_signature}

  -- `receipt_signature_in_logs`
  unfoldable pub receipt_signature_in_logs : List Line → Option Signature
  unfolding find_map marked
  receipt_signature_in_logs =
      find_map (marked (codes "ScheduledCommitSent signature: ") parse_signature)

  -- `receipt_target_in_logs`
  unfoldable pub receipt_target_in_logs : List Line → Option ReceiptTarget
  unfolding find_map marked intent_id_in_logs receipt_signature_in_logs
  receipt_target_in_logs logs =
      elim (find_map (marked (codes "ScheduledCommitSent outbox: ") parse_key) logs) [
        | some address ↦ outbox_target (intent_id_in_logs logs) address
        | none ↦ signature_target (receipt_signature_in_logs logs)
      ]

  -- `pubkey_list`
  unfoldable pub pubkey_list : Line → List Pubkey
  unfolding parse_all split trim
  pubkey_list list =
      parse_all parse_key
        (split 44 (trim_end_by (λ c. eqb c 93) (trim_start_by (λ c. eqb c 91) (trim list))))

  -- What follows the marker of a line, in the loop of `parse_logs`.
  unfoldable pub read_field : Line → CommitReceipt → CommitReceipt
  unfolding strip_prefix trim split pubkey_list after_first
  read_field rest r =
      on_field (strip_prefix (codes "id: ") rest)
        (λ part. record r { commit_id = first_token (split 44 part) })
        (on_field (strip_prefix (codes "payer: ") rest)
          (λ part. record r { payer = parse_key (trim part) })
          (on_field (strip_prefix (codes "included: ") rest)
            (λ part. record r { included = pubkey_list part })
            (on_field (strip_prefix (codes "excluded: ") rest)
              (λ part. record r { excluded = pubkey_list part })
              (on_field (strip_prefix (codes "signature[") rest)
                (λ part. record r {
                  base_signatures =
                      r.base_signatures
                      ++ list_of (
                          and_then (after_first (codes "]: ") part)
                            (λ s. parse_signature (trim s)));
                })
                (if line_beq (trim rest) (codes "requested undelegation")
                  then record r { requested_undelegation = true }
                  else on_field (strip_prefix (codes "error message: ") rest)
                      (λ part. record r { error_message = some part }) r)))))

  unfoldable pub read_line : Line → CommitReceipt → CommitReceipt
  unfolding read_field strip_program_prefix
  read_line s r =
      on_field (strip_prefix (codes "ScheduledCommitSent ") (strip_program_prefix s))
        (λ rest. read_field rest r) r

  unfoldable pub read_lines : List Line → CommitReceipt → CommitReceipt
  unfolding read_line
  read_lines [] r = r
  read_lines (s ∷ logs) r = read_lines logs (read_line s r)

  -- `parse_logs`
  unfoldable pub parse_logs : Signature → List Line → Option ℕ → CommitReceipt
  unfolding read_lines
  parse_logs s logs code = read_lines logs (empty_receipt s code)
