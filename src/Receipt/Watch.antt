-- ===== src/Receipt/Watch.antt =====
-- core/src/receipt.rs: `fetch_commit_receipt_by_intent`, which reads the transactions of an outbox as they are
-- announced until the completion of an intent is among them.
pub mod Announced
pub mod Sweeping
pub mod Outcome
use redsuite.Prelude.{
  ℕ, ◌+◌, Bool, true, false, ◌||◌, List, [], ◌∷◌, ◌++◌, Option, none, some, ok, err, eqb,
  if◌then◌else◌,
}
use redsuite.Receipt.{Pubkey, Signature, Parsers, CommitReceipt}
use redsuite.Receipt.History.{Transaction, Fallible, receipt_of}

-- `seen.contains(…)`
abbrev pub listed : List Signature → Signature → Bool
listed [] s = false
listed (u ∷ us) s = eqb u s || listed us s

pub record Watch : Type 0 where
  pub seen : List Signature
  pub pending : List Signature

unfoldable pub begin : Watch
begin = record { seen = []; pending = [] }

-- `if seen.insert(signature) { pending.push(signature) }`
unfoldable pub announce : Signature → Watch → Watch
announce s w =
    if listed w.seen s then w else record { seen = w.seen ++ s ∷ []; pending = w.pending ++ s ∷ [] }

unfoldable pub announce_all : List Signature → Watch → Watch
unfolding announce
announce_all [] w = w
announce_all (s ∷ signatures) w = announce_all signatures (announce s w)

-- What the select of a turn takes: an update of the logs or of the slots, a failure of one of these
-- streams, or a tick of the history.
pub data Update : Type 0 where
  logged : Signature → Update
  slot_passed stream_failed history_failed : Update
  history : List Signature → Update

unfoldable pub take_update : Update → Watch → Watch
unfolding announce announce_all
take_update (logged s) w = announce s w
take_update slot_passed w = w
take_update stream_failed w = w
take_update history_failed w = w
take_update (history signatures) w = announce_all signatures w

-- `update?`
abbrev pub is_failure : Update → Bool
is_failure stream_failed = true
is_failure _ = false

-- What the interface answers about transactions in a turn.
abbrev pub Bodies : Type 0
Bodies = Signature → Fallible (Option Transaction)

module _ (p : Parsers) (outbox_program : Pubkey) (intent_id min_slot : ℕ) where
  -- What a pending signature comes to: the receipt, a signature that stays pending, or nothing.
  pub data Read : Type 0 where
    finds : CommitReceipt → Read
    stays passes : Read

  abbrev pub read_receipt : Option CommitReceipt → Read
  read_receipt (some r) = finds r
  read_receipt none = passes

  unfoldable pub read_body : Signature → Fallible (Option Transaction) → Read
  unfolding receipt_of
  read_body s (err e) = stays
  read_body s (ok none) = stays
  read_body s (ok (some t)) =
      read_receipt (receipt_of p outbox_program intent_id min_slot s (some t))

  pub data Swept : Type 0 where
    found : CommitReceipt → Swept
    left : List Signature → Swept

  abbrev pub keep_left : Signature → Swept → Swept
  keep_left s (found r) = found r
  keep_left s (left rest) = left (s ∷ rest)

  abbrev pub sweep_one : Signature → Read → Swept → Swept
  sweep_one s (finds r) later = found r
  sweep_one s stays later = keep_left s later
  sweep_one s passes later = later

  -- The loop over the pending signatures.
  unfoldable pub sweep : Bodies → List Signature → Swept
  unfolding read_body
  sweep bodies [] = left []
  sweep bodies (s ∷ pending) = sweep_one s (read_body s (bodies s)) (sweep bodies pending)

  -- How the watch ends: with a receipt, with a stream, or at its deadline.
  pub data Ended : Type 0 where
    receipt : CommitReceipt → Ended
    broken : Ended
    timed_out : Watch → Ended

  abbrev pub after_sweep : (Watch → Ended) → Update → Watch → Swept → Ended
  after_sweep next update w (found r) = receipt r
  after_sweep next update w (left pending) =
      let later = next (take_update update (record w { pending = pending })) in
      if is_failure update then broken else later

  -- `fetch_commit_receipt_by_intent`, over the turns that its deadline leaves time for.
  unfoldable pub fetch_by_intent : List (Bodies × Update) → Watch → Ended
  unfolding sweep take_update
  fetch_by_intent [] w = timed_out w
  fetch_by_intent ((bodies, update) ∷ turns) w =
      after_sweep (λ w'. fetch_by_intent turns w') update w (sweep bodies w.pending)
