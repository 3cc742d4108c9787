-- ===== src/Receipt/Tests.antt =====
-- core/src/receipt.rs: the receipt of an intent with two keys, printed, read, watched for and found absent.
use redsuite.Prelude.{
  ℕ, ◌<◌, ◌↔◌, ◌≡◌, refl, arith, true, false, List, [], ◌∷◌, Option, none, some, ok, err, eqb, leb,
  if◌then◌else◌,
}
use redsuite.Receipt.Lines.{Line, codes, parse_u64, is_whitespace}
use redsuite.Receipt.Lines.Tokens.{AllPlain, values}
use redsuite.Receipt.{
  Parsers, CommitReceipt, by_signature, outbox, parse_logs, receipt_target_in_logs,
}
use redsuite.Receipt.Printed.{Texts, lines_of}
use redsuite.Receipt.Printed.Reading.{parse_logs-lines_of}
use redsuite.Receipt.History.{
  Transaction, Fallible, Api, rpc_failed, intent_failed, attempts, ensure_receipt_absent,
}
use redsuite.Receipt.Absence.{IsClear, ensure_receipt_absent-Clear}
use redsuite.Receipt.Watch.{begin, Update, logged, slot_passed, history, Bodies, fetch_by_intent}
use redsuite.Receipt.Watch.Sweeping.{IsFound}
use redsuite.Receipt.Watch.Outcome.{
  IsAnswered, IsSettled, fetch_by_intent-Found, fetch_by_intent-Settled,
}
use redsuite.Receipt.Checks.{check_included, verify}
use redsuite.Receipt.Commit.{Network, check}
use redsuite.Receipt.Commit.Origin.{IsScheduled, IsVerified, check-IsVerified}
use redsuite.Receipt.Checks.Included.{SameKeys, check_included_iff}

abbrev parsers : Parsers
parsers = record { parse_key = parse_u64; parse_signature = parse_u64 }

abbrev texts : Texts
texts = record {
  id = codes "7";
  more = codes " slot: 3";
  payer = codes "9";
  included = codes "21" ∷ codes "20" ∷ [];
  excluded = [];
  base = (codes "0", codes "300") ∷ (codes "1", codes "301") ∷ [];
  undelegation = true;
  error = none;
}

abbrev seven : CommitReceipt
seven = record {
  signature = 5;
  commit_id = some 7;
  payer = some 9;
  included = 21 ∷ 20 ∷ [];
  excluded = [];
  base_signatures = 300 ∷ 301 ∷ [];
  requested_undelegation = true;
  error_message = none;
  receipt_err_code = none;
}

digits_plain :
    (c : ℕ) (s : Line) → leb 48 c ≡ true → leb c 57 ≡ true → AllPlain s → AllPlain (c ∷ s)
unfolding is_whitespace
digits_plain c s low high rest = (
  record {
    space = ground arith;
    comma = ground arith;
    opening = ground arith;
    closing = ground arith;
  },
  rest,
)

three : (c : ℕ) (low : leb 48 c ≡ true) (high : leb c 57 ≡ true) → AllPlain (51 ∷ 48 ∷ c ∷ [])
three c low high =
    digits_plain 51 (48 ∷ c ∷ []) refl refl
      (digits_plain 48 (c ∷ []) refl refl (digits_plain c [] low high tt))

parse_logs-lines_of_example : parse_logs parsers 5 (lines_of texts) none ≡ seven
unfolding parse_u64 values
parse_logs-lines_of_example = parse_logs-lines_of parsers refl 5 texts none (record {
  id = digits_plain 55 [] refl refl tt;
  payer = digits_plain 57 [] refl refl tt;
  included = (
    digits_plain 50 (49 ∷ []) refl refl (digits_plain 49 [] refl refl tt),
    (digits_plain 50 (48 ∷ []) refl refl (digits_plain 48 [] refl refl tt), tt),
  );
  excluded = tt;
  numbers = (digits_plain 48 [] refl refl tt, (digits_plain 49 [] refl refl tt, tt));
  base = (three 48 refl refl, (three 49 refl refl, tt));
})

-- The outbox program is 99. Transaction 5 completes the intent 7, and 4 another.
abbrev transaction : List Line → Transaction
transaction logs = record {
  slot = 3;
  execution = some (record { error = none; log_messages = some logs });
  decoded = some (record { keys = 98 ∷ 99 ∷ []; program_indices = 1 ∷ [] });
}

abbrev completion : Transaction
completion = transaction (lines_of texts)

abbrev other_completion : Transaction
other_completion = transaction (codes "ScheduledCommitSent id: 8" ∷ [])

abbrev body : ℕ → Fallible (Option Transaction)
body s =
    if eqb s 5
    then ok (some completion)
    else if eqb s 4
    then ok (some other_completion)
    else err rpc_failed

-- A log tells of transaction 4, the history of 4 and 5.
abbrev turns : List (Bodies × Update)
turns = (body, logged 4) ∷ (body, history (4 ∷ 5 ∷ [])) ∷ (body, slot_passed) ∷ []

fetch_by_intent-Found_example : IsFound parsers 99 7 3 (IsAnswered parsers 99 7 3 turns) seven
unfolding fetch_by_intent begin parse_logs parse_u64 lines_of
fetch_by_intent-Found_example = fetch_by_intent-Found parsers 99 7 3 turns seven refl

-- The body of transaction 5 cannot be read yet.
abbrev late_body : ℕ → Fallible (Option Transaction)
late_body s = if eqb s 5 then ok none else body s

abbrev late_turns : List (Bodies × Update)
late_turns =
    (late_body, logged 4) ∷ (late_body, history (4 ∷ 5 ∷ [])) ∷ (late_body, slot_passed) ∷ []

fetch_by_intent-Settled_example :
    IsSettled parsers 99 7 3 late_turns (record { seen = 4 ∷ 5 ∷ []; pending = 5 ∷ [] }) 4
unfolding fetch_by_intent begin parse_logs parse_u64
fetch_by_intent-Settled_example =
    fetch_by_intent-Settled parsers 99 7 3 late_turns
      (record { seen = 4 ∷ 5 ∷ []; pending = 5 ∷ [] }) 4 refl refl

-- The first attempt meets the unreadable body, the second does not list it.
abbrev apis : ℕ → Api
apis attempt = record {
  signatures = λ address. ok (if eqb attempt 0 then 4 ∷ 5 ∷ [] else 4 ∷ []);
  transaction = late_body;
}

ensure_receipt_absent-Clear_example :
    (k : ℕ) × (k < attempts) × IsClear parsers 99 7 3 9 (apis k) 60
unfolding ensure_receipt_absent parse_logs parse_u64
ensure_receipt_absent-Clear_example = ensure_receipt_absent-Clear parsers 99 7 3 9 apis 60 refl

check_included_iff_example :
    (check_included (20 ∷ 21 ∷ []) seven ≡ ok tt) ↔ SameKeys (21 ∷ 20 ∷ []) (20 ∷ 21 ∷ [])
check_included_iff_example = check_included_iff (20 ∷ 21 ∷ []) seven

-- The logs of a schedule name a signature, or an outbox and an intent.
legacy_target :
    receipt_target_in_logs parsers (codes "Program log: ScheduledCommitSent signature: 12" ∷ [])
    ≡ some (by_signature 12)
unfolding receipt_target_in_logs parse_u64
legacy_target = refl

target_of_outbox :
    receipt_target_in_logs parsers (
      codes "Scheduled commit with ID: 42"
      ∷ codes "Program log: ScheduledCommitSent outbox: 60"
      ∷ [])
    ≡ some (outbox 60 42 0)
unfolding receipt_target_in_logs parse_u64
target_of_outbox = refl

target_without_id :
    receipt_target_in_logs parsers (codes "ScheduledCommitSent outbox: 60" ∷ []) ≡ none
unfolding receipt_target_in_logs parse_u64
target_without_id = refl

-- The commit was scheduled by transaction 11, in the slot of its completion.
abbrev network : Network
network = record {
  scheduling = λ s. ok (record {
    error = none;
    logs = codes "Scheduled commit with ID: 7" ∷ codes "ScheduledCommitSent outbox: 60" ∷ [];
  });
  receipts = λ s. err rpc_failed;
  transaction = λ s. ok completion;
  turns = λ address. turns;
}

check-IsVerified_example :
    IsScheduled parsers 99 network 11 seven × IsVerified (leb 300) (20 ∷ 21 ∷ []) true seven
unfolding check parse_logs parse_u64 lines_of
check-IsVerified_example =
    check-IsVerified parsers 99 network (leb 300) 11 (20 ∷ 21 ∷ []) true seven refl

-- A receipt that a duplicate was rejected passes, one of another failure does not.
rejected_verify :
    verify (leb 300) [] false (record seven { error_message = some (codes "Custom(12)") }) ≡ ok tt
unfolding verify
rejected_verify = refl

failed_verify :
    verify (leb 300) (20 ∷ 21 ∷ []) true (record seven { error_message = some (codes "Custom(1)") })
    ≡ err (intent_failed (codes "Custom(1)"))
unfolding verify
failed_verify = refl
