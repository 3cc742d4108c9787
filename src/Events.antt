-- ===== src/Events.antt =====
-- core/src/transport/events.rs: the buffer of the notifications that a connection has received, by the
-- key of the subscription, and what its readers take from it. The JSON decoders are arguments:
-- `parse_value` at a payload, and `from_value` at the reader's type.
pub mod Queue
pub mod Cursor
pub mod Routes
pub mod Delivery
mod Tests
use redsuite.Prelude.{
  ℕ, ◌+◌, Bool, List, [], ◌∷◌, ◌++◌, Option, none, some, String, Result, ok, err, ensure, ◌>>◌,
  if◌then◌else◌, eqb, leb, length, drop, Table, get, remove, insert,
}
use redsuite.Subscription.{
  Topic, account, failure, logs, program, signature, slot, SubscriptionState, ControlFlow, go_on,
  break_off,
}

pub record EventBuffer (Value : Type 0) : Type 0 where
  pub last_key : ℕ
  pub by_key : Table (List Value)
  pub malformed : ℕ

pub data EventError : Type 0 where
  malformed_payloads : (count : ℕ) → EventError
  undecodable no_subscriptions : EventError

abbrev pub Key : Type 0
Key = ℕ × Topic

-- A signature subscription is removed by the server after its one notification.
unfoldable pub flow : Topic → ControlFlow
flow signature = break_off
flow account = go_on
flow failure = go_on
flow logs = go_on
flow program = go_on
flow slot = go_on

module _ {Value : Type 0} where
  abbrev pub default_buffer : EventBuffer Value
  default_buffer = record { last_key = 0; by_key = []; malformed = 0 }

  unfoldable pub on_malformed : EventBuffer Value → EventBuffer Value
  on_malformed b = record b { malformed = b.malformed + 1 }

  -- `impl SubscriptionState for EventBuffer`
  unfoldable pub buffer_hooks : SubscriptionState (EventBuffer Value)
  unfolding on_malformed
  buffer_hooks = record {
    on_subscribed = λ b count. b;
    on_malformed = on_malformed;
    on_close = λ b why. b;
  }

  unfoldable pub register : EventBuffer Value → EventBuffer Value × ℕ
  register b = (
    record b { last_key = b.last_key + 1; by_key = insert (b.last_key + 1) [] b.by_key },
    b.last_key + 1,
  )

  -- `push_back` on the queue of a key, if there is one.
  unfoldable pub push_back : ℕ → Value → Table (List Value) → Table (List Value)
  push_back key event [] = []
  push_back key event ((j, events) ∷ m) =
      let rest = push_back key event m in
      if eqb j key then (j, events ++ event ∷ []) ∷ m else (j, events) ∷ rest

  unfoldable pub store : ℕ → Option Value → EventBuffer Value → EventBuffer Value
  unfolding push_back
  store key (some event) b = record b { by_key = push_back key event b.by_key }
  store key none b = record b { malformed = b.malformed + 1 }

  -- `pop_front` on the queue of a key.
  unfoldable pub pop_front : ℕ → Table (List Value) → Table (List Value) × Option Value
  pop_front key [] = ([], none)
  pop_front key ((j, []) ∷ m) =
      let (rest, front) = pop_front key m in
      if eqb j key then ((j, []) ∷ m, none) else ((j, []) ∷ rest, front)
  pop_front key ((j, event ∷ events) ∷ m) =
      let (rest, front) = pop_front key m in
      if eqb j key then ((j, events) ∷ m, some event) else ((j, event ∷ events) ∷ rest, front)

  -- `Subscription::drop`, of the buffer.
  unfoldable pub forget : ℕ → EventBuffer Value → EventBuffer Value
  forget key b = record b { by_key = remove key b.by_key }

  unfoldable pub queued : Option (List Value) → List Value
  queued none = []
  queued (some events) = events

  unfoldable pub intact : EventBuffer Value → Result EventError (Unit {0})
  intact b = ensure (eqb b.malformed 0) (malformed_payloads b.malformed)

  -- What the wait of `await_events` observes.
  unfoldable pub observe_events : ℕ → ℕ → EventBuffer Value → Result EventError (Option (Unit {0}))
  unfolding intact queued
  observe_events key count b =
      intact b >> ok (if leb count (length (queued (get key b.by_key))) then some tt else none)

module _ {Value : Type 0} (parse_value : String → Option Value) where
  unfoldable pub observe : EventBuffer Value → Key → String → EventBuffer Value × ControlFlow
  unfolding store flow
  observe b (key, topic) payload = (store key (parse_value payload) b, flow topic)

module _ {Value T : Type 0} (from_value : Value → Option T) where
  unfoldable pub decode : Option Value → Result EventError (Option T)
  decode none = ok none
  decode (some value) = elim (from_value value) [ none ↦ err undecodable | some t ↦ ok (some t) ]

  -- `EventBuffer::pop`: a value is taken even if it cannot be decoded.
  unfoldable pub pop_checked :
      Result EventError (Unit {0})
      → ℕ
      → EventBuffer Value
      → EventBuffer Value × Result EventError (Option T)
  unfolding decode
  pop_checked (err why) key b = (b, err why)
  pop_checked (ok _) key b =
      (record b { by_key = (pop_front key b.by_key).0 }, decode (pop_front key b.by_key).1)

  unfoldable pub pop : ℕ → EventBuffer Value → EventBuffer Value × Result EventError (Option T)
  unfolding intact pop_checked
  pop key b = pop_checked (intact b) key b

  -- The subscriptions in turn, from the one at `index`: the first event that one of them has.
  abbrev or_else :
      EventBuffer Value × Result EventError (Option T)
      → ℕ
      → (EventBuffer Value → EventBuffer Value × Result EventError (Option (ℕ × T)))
      → EventBuffer Value × Result EventError (Option (ℕ × T))
  or_else (b, err why) index next = (b, err why)
  or_else (b, ok (some event)) index next = (b, ok (some (index, event)))
  or_else (b, ok none) index next = next b

  unfoldable pub scan :
      List ℕ → ℕ → EventBuffer Value → EventBuffer Value × Result EventError (Option (ℕ × T))
  unfolding pop
  scan [] index b = (b, ok none)
  scan (key ∷ keys) index b = or_else (pop key b) index (λ b'. scan keys (index + 1) b')

  -- `next_from`, for one look at the buffer.
  unfoldable pub next_from :
      List ℕ → EventBuffer Value → EventBuffer Value × Result EventError (Option (ℕ × T))
  unfolding scan
  next_from [] b = (b, err no_subscriptions)
  next_from (key ∷ keys) b = scan (key ∷ keys) 0 b

  -- `EventSubscriptions::events`
  unfoldable pub decode_all : List Value → Result EventError (List T)
  decode_all [] = ok []
  decode_all (value ∷ values) = elim (from_value value) [
    | none ↦ err undecodable
    | some t ↦ elim (decode_all values) [ err why ↦ err why | ok ts ↦ ok (t ∷ ts) ]
  ]

  unfoldable pub events : ℕ → EventBuffer Value → Result EventError (List T)
  unfolding decode_all queued
  events key b = decode_all (queued (get key b.by_key))

  -- The search of `await_event` through the events that it has not seen.
  unfoldable pub first_match : (T → Bool) → List Value → Result EventError (Option T)
  first_match matches [] = ok none
  first_match matches (value ∷ values) = elim (from_value value) [
    | none ↦ err undecodable
    | some t ↦ let rest = first_match matches values in if matches t then ok (some t) else rest
  ]

  -- The cursor after a search.
  abbrev advance : ℕ → List Value → Result EventError (Option T) → ℕ × Result EventError (Option T)
  advance cursor values (ok none) = (length values, ok none)
  advance cursor values (ok (some t)) = (cursor, ok (some t))
  advance cursor values (err why) = (cursor, err why)

  -- What the wait of `await_event` observes, with its cursor.
  unfoldable pub observe_match :
      (T → Bool) → Option (List Value) → ℕ → ℕ × Result EventError (Option T)
  unfolding first_match
  observe_match matches none cursor = (cursor, ok none)
  observe_match matches (some values) cursor =
      advance cursor values (first_match matches (drop cursor values))
