-- ===== src/Receipt/Watch/Outcome.antt =====
-- core/src/receipt.rs: how a watch for the completion of an intent may end.
use redsuite.Prelude.{
  ltb-false, ℕ, ◌≡◌, refl, subst, ◌⊎◌, inl, inr, true, false, ◌||◌, Bool-cases, List, [], ◌∷◌, some,
  ok, if◌then◌else◌, Option, none, err, ap, sym, ◌∙◌, eqb_iff, ◌≤◌,
}
use redsuite.Receipt.{Pubkey, Signature, Parsers, CommitReceipt}
use redsuite.Receipt.History.{
  Transaction, Fallible, receipt_of, completion_after, parse_outbox_completion, with_intent,
  is_some_of,
}
use redsuite.Receipt.Watch.{
  listed, Watch, begin, Update, take_update, Bodies, passes, read_body, read_receipt, Swept, found,
  left, Ended, receipt, broken, timed_out, is_failure, after_sweep, fetch_by_intent,
}
use redsuite.Receipt.Watch.Announced.{
  is_announced, announced, update-pending, update-new, update-other,
}
use redsuite.Receipt.Watch.Sweeping.{IsFound, sweeps, sweep-left, sweep-found}

module _ (p : Parsers) (outbox_program : Pubkey) (intent_id min_slot : ℕ) where
  -- What is answered for a signature is a transaction, and it does not complete the intent from the slot on.
  abbrev pub IsOther : Fallible (Option Transaction) → Signature → Type 0
  IsOther answer s =
      (t : Transaction) × (answer ≡ ok (some t))
      × ((r : CommitReceipt)
          → min_slot ≤ t.slot
          → parse_outbox_completion p outbox_program s t ≡ some r
          → r.commit_id ≡ some intent_id
          → ⊥)

  receipt_of-none :
      (s : Signature) (t : Transaction) (r : CommitReceipt)
      → receipt_of p outbox_program intent_id min_slot s (some t) ≡ none
      → min_slot ≤ t.slot
      → parse_outbox_completion p outbox_program s t ≡ some r
      → r.commit_id ≡ some intent_id
      → ⊥
  unfolding receipt_of completion_after
  receipt_of-none s t r e late whole id =
      let kept : completion_after p outbox_program min_slot s t ≡ some r =
        rw (ltb-false t.slot min_slot late, if◌then◌else◌) whole in
      let same : is_some_of r.commit_id intent_id ≡ true =
        ap (λ i. is_some_of i intent_id) id ∙ (eqb_iff intent_id intent_id).1 refl in
      let found_it : with_intent intent_id (some r) ≡ some r = rw (same, if◌then◌else◌) refl in
      cc (sym e ∙ ap (with_intent intent_id) kept ∙ found_it)

  read_receipt-passes :
      (o : Option CommitReceipt)
      → read_receipt p outbox_program intent_id min_slot o ≡ passes
      → o ≡ none
  read_receipt-passes none e = refl
  read_receipt-passes (some r) e = absurd (cc)

  read_body-passes :
      (s : Signature) (o : Fallible (Option Transaction))
      → read_body p outbox_program intent_id min_slot s o ≡ passes
      → IsOther o s
  unfolding read_body
  read_body-passes s (err failure) e = absurd (cc)
  read_body-passes s (ok none) e = absurd (cc)
  read_body-passes s (ok (some t)) e = (
    t,
    refl,
    λ r.
        receipt_of-none s t r
          (read_receipt-passes (receipt_of p outbox_program intent_id min_slot s (some t)) e),
  )

  -- A transaction was read in one of some turns, and it does not complete the intent.
  abbrev pub IsRuledOut : List (Bodies × Update) → Signature → Type 0
  IsRuledOut [] s = ⊥
  IsRuledOut ((bodies, update) ∷ turns) s = IsOther (bodies s) s ⊎ IsRuledOut turns s

  -- A transaction was read in one of some turns.
  abbrev pub IsAnswered : List (Bodies × Update) → Signature → Transaction → Type 0
  IsAnswered [] s t = ⊥
  IsAnswered ((bodies, update) ∷ turns) s t = (bodies s ≡ ok (some t)) ⊎ IsAnswered turns s t

  -- What a watch knows of a signature when its deadline passes: it is still pending, or was ruled out.
  abbrev pub IsSettled : List (Bodies × Update) → Watch → Signature → Type 0
  IsSettled turns w s = (listed w.pending s ≡ true) ⊎ IsRuledOut turns s

  -- How a watch may end.
  abbrev pub IsRight :
      List (Bodies × Update)
      → (Signature → Type 0)
      → Ended p outbox_program intent_id min_slot
      → Type 0
  IsRight turns Known (receipt r) = IsFound p outbox_program intent_id min_slot (IsAnswered turns) r
  IsRight turns Known broken = Unit {0}
  IsRight turns Known (timed_out w) = (s : Signature) → Known s → IsSettled turns w s

  -- The signatures that a watch is to settle: those pending, and those told of that are not yet seen.
  abbrev pub IsDue : List (Bodies × Update) → Watch → Signature → Type 0
  IsDue turns w s =
      (listed w.pending s ≡ true) ⊎ ((listed w.seen s ≡ false) × (announced turns s ≡ true))

  Right-before :
      (bodies : Bodies) (update : Update) (turns : List (Bodies × Update))
      (Known Later : Signature → Type 0) (ended : Ended p outbox_program intent_id min_slot)
      → ((s : Signature)
          → Known s
          → Later s ⊎ (read_body p outbox_program intent_id min_slot s (bodies s) ≡ passes))
      → IsRight turns Later ended
      → IsRight ((bodies, update) ∷ turns) Known ended
  Right-before bodies update turns Known Later (receipt r) due right =
      let (s, t, answer, late, whole, id) = right in (s, t, inr answer, late, whole, id)
  Right-before bodies update turns Known Later broken due right = tt
  Right-before bodies update turns Known Later (timed_out w) due right = λ s known.
      elim (due s known) [
        | inl later ↦ elim (right s later) [ inl pending ↦ inl pending | inr out ↦ inr (inr out) ]
        | inr now ↦ inr (inl (read_body-passes s (bodies s) now))
      ]

  -- What is due before a sweep is due after it and the update, or is ruled out.
  IsDue-after :
      (bodies : Bodies) (update : Update) (turns : List (Bodies × Update)) (w : Watch)
      (pending : List Signature)
      → sweeps p outbox_program intent_id min_slot bodies w.pending ≡ left pending
      → (s : Signature) → IsDue ((bodies, update) ∷ turns) w s
      → IsDue turns (take_update update (record w { pending = pending })) s
        ⊎ (read_body p outbox_program intent_id min_slot s (bodies s) ≡ passes)
  IsDue-after bodies update turns w pending e s (inl waits) =
      elim (sweep-left p outbox_program intent_id min_slot bodies w.pending pending s e waits) [
        | inl still ↦ inl (inl (update-pending update s (record w { pending = pending }) still))
        | inr out ↦ inr out
      ]
  IsDue-after bodies update turns w pending e s (inr (new, told)) =
      elim (Bool-cases (is_announced update s)) [
        | inl now ↦ inl (inl (update-new update s (record w { pending = pending }) now new))
        | inr later ↦ inl (
            inr (
              update-other update s (record w { pending = pending }) later new,
              rw (later, ◌||◌) at told,
            ))
      ]

  after-Right :
      (bodies : Bodies) (update : Update) (turns : List (Bodies × Update)) (w : Watch)
      (swept : Swept p outbox_program intent_id min_slot)
      (next : Watch → Ended p outbox_program intent_id min_slot)
      → sweeps p outbox_program intent_id min_slot bodies w.pending ≡ swept
      → ((w' : Watch) → IsRight turns (IsDue turns w') (next w'))
      → IsRight
          ((bodies, update) ∷ turns)
          (IsDue ((bodies, update) ∷ turns) w)
          (after_sweep p outbox_program intent_id min_slot next update w swept)
  after-Right bodies update turns w (found r) next e rest =
      let (s, t, answer, late, whole, id) =
        sweep-found p outbox_program intent_id min_slot bodies w.pending r e in
      (s, t, inl answer, late, whole, id)
  after-Right bodies update turns w (left pending) next e rest =
      elim (Bool-cases (is_failure update)) [
        | inl fails ↦ rw (fails, if◌then◌else◌) tt
        | inr goes_on ↦
            let w' = take_update update (record w { pending = pending }) in
            rw (goes_on, if◌then◌else◌)
              (Right-before bodies update turns (IsDue ((bodies, update) ∷ turns) w)
                (IsDue turns w') (next w') (IsDue-after bodies update turns w pending e) (rest w'))
      ]

  fetch-Right :
      (turns : List (Bodies × Update)) (w : Watch)
      → IsRight turns (IsDue turns w) (fetch_by_intent p outbox_program intent_id min_slot turns w)
  unfolding fetch_by_intent
  fetch-Right [] w = λ s due. elim due [ inl pending ↦ inl pending | inr (new, told) ↦ absurd (cc) ]
  fetch-Right ((bodies, update) ∷ turns) w =
      after-Right bodies update turns w
        (sweeps p outbox_program intent_id min_slot bodies w.pending)
        (λ w'. fetch_by_intent p outbox_program intent_id min_slot turns w') refl
        (λ w'. fetch-Right turns w')

  -- A receipt that a watch ends with is that of a transaction that was read in one of its turns, lies in the
  -- slot asked for or a later one, and completes the intent.
  pub fetch_by_intent-Found :
      (turns : List (Bodies × Update)) (r : CommitReceipt)
      → fetch_by_intent p outbox_program intent_id min_slot turns begin ≡ receipt r
      → IsFound p outbox_program intent_id min_slot (IsAnswered turns) r
  fetch_by_intent-Found turns r e =
      subst (IsRight turns (IsDue turns begin)) e (fetch-Right turns begin)

  -- When the deadline of a watch passes, each signature that an update of the logs or a listing of the history
  -- has told of is still pending, or its transaction was read in a turn and is no completion of the intent from
  -- the slot on.
  pub fetch_by_intent-Settled :
      (turns : List (Bodies × Update)) (w : Watch) (s : Signature)
      → fetch_by_intent p outbox_program intent_id min_slot turns begin ≡ timed_out w
      → announced turns s ≡ true
      → IsSettled turns w s
  unfolding begin
  fetch_by_intent-Settled turns w s e told =
      subst (IsRight turns (IsDue turns begin)) e (fetch-Right turns begin) s (inr (refl, told))
