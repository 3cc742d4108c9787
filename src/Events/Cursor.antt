-- ===== src/Events/Cursor.antt =====
-- core/src/transport/events.rs: `await_event` across its wakeups, between which its queue grows.
use redsuite.Prelude.{
  ℕ, ◌≡◌, refl, ap, sym, ◌∙◌, Bool, List, [], ◌∷◌, ◌++◌, Option, none, some, Result, ok, err, arith,
  length, drop-append,
}
use redsuite.Events.{EventError, first_match, observe_match, advance}

pub concat : {Value : Type 0} → List (List Value) → List Value
concat [] = []
concat (batch ∷ batches) = batch ++ concat batches

module _ {Value T : Type 0} (from_value : Value → Option T) (matches : T → Bool) where
  abbrev or_wait :
      (ℕ → Result EventError (Option T))
      → ℕ × Result EventError (Option T)
      → Result EventError (Option T)
  or_wait next (cursor, ok none) = next cursor
  or_wait next (cursor, ok (some t)) = ok (some t)
  or_wait next (cursor, err why) = err why

  -- The wait of `await_event`: at each wakeup the queue is what it was with a batch more. It stops at
  -- an event that matches, at an error, or when there are no more wakeups.
  pub poll : List (List Value) → List Value → ℕ → Result EventError (Option T)
  poll [] seen cursor = ok none
  poll (batch ∷ batches) seen cursor =
      or_wait (λ c. poll batches (seen ++ batch) c)
        (observe_match from_value matches (some (seen ++ batch)) cursor)

  abbrev or_search :
      Result EventError (Option T) → Result EventError (Option T) → Result EventError (Option T)
  or_search (ok none) next = next
  or_search (ok (some t)) next = ok (some t)
  or_search (err why) next = err why

  first_match-append :
      (xs ys : List Value)
      → first_match from_value matches (xs ++ ys)
        ≡ or_search (first_match from_value matches xs) (first_match from_value matches ys)
  unfolding first_match
  first_match-append [] ys = refl
  first_match-append (x ∷ xs) ys = ground (arith, first_match-append xs ys)

  advance-or_search :
      (next : ℕ → Result EventError (Option T)) (cursor : ℕ) (seen : List Value)
      (r later : Result EventError (Option T))
      → next (length seen) ≡ later
      → or_wait next (advance from_value cursor seen r) ≡ or_search r later
  advance-or_search next cursor seen (ok none) later h = h
  advance-or_search next cursor seen (ok (some t)) later h = refl
  advance-or_search next cursor seen (err why) later h = refl

  poll-seen :
      (batches : List (List Value)) (seen : List Value)
      → poll batches seen (length seen) ≡ first_match from_value matches (concat batches)
  unfolding poll concat observe_match first_match
  poll-seen [] seen = refl
  poll-seen (batch ∷ batches) seen =
      advance-or_search (λ c. poll batches (seen ++ batch) c) (length seen) (seen ++ batch) _ _
        (poll-seen batches (seen ++ batch))
      ∙ ap
          (λ fresh.
            or_search (first_match from_value matches fresh)
              (first_match from_value matches (concat batches)))
          (drop-append seen batch)
      ∙ sym (first_match-append batch (concat batches))

  -- However the events of a key arrive in batches between the wakeups, the wait for a matching event,
  -- which starts with its cursor at zero and looks at each wakeup only past the cursor, finds what one
  -- search through all the events finds: the first that matches, the error of one that cannot be
  -- decoded before it, or nothing.
  pub poll-first_match :
      (batches : List (List Value))
      → poll batches [] 0 ≡ first_match from_value matches (concat batches)
  poll-first_match batches = poll-seen batches []
