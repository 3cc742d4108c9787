-- ===== src/RawWs.antt =====
-- core/src/transport/wsraw.rs: a websocket client that reads its socket only while it waits for a reply or
-- for a notification. The socket is the list of the items that it still yields, and a deadline is the number
-- of texts that are read before it passes. The JSON decoders are arguments: `envelope` of messages, `value`
-- of payloads and `decode` of results.
pub mod Topics
pub mod Conserved
pub mod Answered
mod Tests
use redsuite.Prelude.{
  ℕ, zero, suc, ◌+◌, Bool, true, false, List, [], ◌∷◌, ◌++◌, Option, none, some, String, Result, ok,
  err, eqb, if◌then◌else◌,
}
use redsuite.Socket.{
  RpcError, CloseReason, stream_ended, server_close, transport, server_error, Notification,
  Envelope, Frame, reply, notification, malformed, Message, text, close, other, failed, parse,
}
use redsuite.Subscription.{Topic, subscribe_method, unsubscribe_method}

pub record Sent : Type 0 where
  pub id : ℕ
  pub method : String
  pub params : String

-- The errors of the client's calls.
pub data Failure : Type 0 where
  send_failed no_reply unreadable_result : Failure
  closed : CloseReason → Failure
  rejected : RpcError → Failure

-- `RawNotification`
abbrev pub RawNotification : Type 0 → Type 0
RawNotification V = String × ℕ × V

pub record RawWs (V : Type 0) : Type 0 where
  pub unread : List Message
  pub sent : List Sent
  pub next_id : ℕ
  pub queue : List (RawNotification V)
  pub malformed_frames : ℕ

-- `RawWs::connect`, of a socket that has been connected.
unfoldable pub connect : {V : Type 0} → List Message → RawWs V
connect socket = record {
  unread = socket;
  sent = [];
  next_id = 1;
  queue = [];
  malformed_frames = 0;
}

-- What a turn of a loop that reads the socket comes to: a result, or another turn.
pub data Turn (V A : Type 0) : Type 0 where
  done : A → RawWs V → Turn V A
  more : RawWs V → Turn V A

module _ {V : Type 0} (value : String → Option V) where
  unfoldable pub count_malformed : RawWs V → RawWs V
  count_malformed w = record w { malformed_frames = w.malformed_frames + 1 }

  -- `decode_notification`, on what the decoder makes of the payload.
  unfoldable pub decoded :
      String → Notification → Option V → RawWs V → Option (RawNotification V) × RawWs V
  unfolding count_malformed
  decoded method params (some payload) w = (some (method, params.subscription, payload), w)
  decoded method params none w = (none, count_malformed w)

  unfoldable pub decode_notification :
      String → Notification → RawWs V → Option (RawNotification V) × RawWs V
  unfolding decoded
  decode_notification method params w = decoded method params (value params.result) w

  -- The notification joins the queue.
  unfoldable pub push_back : Option (RawNotification V) × RawWs V → RawWs V
  push_back (none, w) = w
  push_back (some n, w) = record w { queue = w.queue ++ n ∷ [] }

  -- The result of `RawWs::try_request` for the reply to it.
  unfoldable pub answer :
      {T : Type 0}
      → (String → Option T)
      → Result RpcError String
      → Result Failure (Result RpcError T)
  answer decode (err error) = ok (err error)
  answer decode (ok raw) = elim (decode raw) [ none ↦ err unreadable_result | some t ↦ ok (ok t) ]

  -- A turn of the loop of `RawWs::try_request`, for the text read.
  unfoldable pub request_turn :
      {T : Type 0}
      → (String → Option T)
      → ℕ
      → Result CloseReason (Option Frame)
      → RawWs V
      → Turn V (Result Failure (Result RpcError T))
  unfolding answer push_back decode_notification count_malformed
  request_turn decode id (err why) w = done (err (closed why)) w
  request_turn decode id (ok none) w = more w
  request_turn decode id (ok (some (reply r result))) w =
      if eqb r id then done (answer decode result) w else more w
  request_turn decode id (ok (some (notification method params))) w =
      more (push_back (decode_notification method params w))
  request_turn decode id (ok (some malformed)) w = more (count_malformed w)

  -- A notification ends the wait for one.
  unfoldable pub found :
      Option (RawNotification V) × RawWs V → Turn V (Result Failure (Option (RawNotification V)))
  found (none, w) = more w
  found (some n, w) = done (ok (some n)) w

  -- A turn of the loop of `RawWs::next_notification`, for the text read.
  unfoldable pub next_turn :
      Result CloseReason (Option Frame)
      → RawWs V
      → Turn V (Result Failure (Option (RawNotification V)))
  unfolding found decode_notification count_malformed
  next_turn (err why) w = done (err (closed why)) w
  next_turn (ok none) w = more w
  next_turn (ok (some (reply r (ok raw)))) w = more w
  next_turn (ok (some (reply r (err error)))) w = done (err (closed (server_error error))) w
  next_turn (ok (some (notification method params))) w = found (decode_notification method params w)
  next_turn (ok (some malformed)) w = more (count_malformed w)

module _ {V A : Type 0} where
  -- The socket is left with the items that were not read.
  unfoldable pub stop : List Message → A → RawWs V → A × RawWs V
  stop ms a w = (a, record w { unread = ms })

  unfoldable pub after_turn : (RawWs V → A × RawWs V) → List Message → Turn V A → A × RawWs V
  unfolding stop
  after_turn next ms (done a w) = stop ms a w
  after_turn next ms (more w) = next w

  -- A loop that reads texts, with the turn that it takes for each, until a turn is done, the socket
  -- ends, or the deadline passes after the number of texts given.
  unfoldable pub read_until :
      (String → RawWs V → Turn V A)
      → (CloseReason → A)
      → A
      → ℕ
      → List Message
      → RawWs V
      → A × RawWs V
  unfolding stop after_turn
  read_until turn on_close late zero ms w = stop ms late w
  read_until turn on_close late (suc n) [] w = stop [] (on_close stream_ended) w
  read_until turn on_close late (suc n) (text t ∷ ms) w =
      after_turn (λ w'. read_until turn on_close late n ms w') ms (turn t w)
  read_until turn on_close late (suc n) (close frame ∷ ms) w =
      stop ms (on_close (server_close frame)) w
  read_until turn on_close late (suc n) (other ∷ ms) w = read_until turn on_close late (suc n) ms w
  read_until turn on_close late (suc n) (failed error ∷ ms) w =
      stop ms (on_close (transport error)) w

module _ {V : Type 0} (envelope : String → Option Envelope) (value : String → Option V) where
  abbrev pub closed_request : {A : Type 0} → CloseReason → Result Failure A
  closed_request why = err (closed why)

  -- The request is sent under the next id.
  unfoldable pub claim : String → String → RawWs V → RawWs V
  claim method params w = record w {
    next_id = w.next_id + 1;
    sent = w.sent ++ record { id = w.next_id; method = method; params = params } ∷ [];
  }

  unfoldable pub claim_unsent : RawWs V → RawWs V
  claim_unsent w = record w { next_id = w.next_id + 1 }

  -- `RawWs::try_request`, with whether the request can be sent.
  unfoldable pub try_request :
      {T : Type 0}
      → (String → Option T)
      → Bool
      → ℕ
      → String
      → String
      → RawWs V
      → Result Failure (Result RpcError T) × RawWs V
  unfolding claim claim_unsent read_until request_turn
  try_request decode false within method params w = (err send_failed, claim_unsent w)
  try_request decode true within method params w =
      read_until (λ t. request_turn value decode w.next_id (parse (envelope t))) closed_request
        (err no_reply) within w.unread (claim method params w)

  abbrev pub flatten :
      {T : Type 0} → Result Failure (Result RpcError T) × RawWs V → Result Failure T × RawWs V
  flatten (ok (ok t), w) = (ok t, w)
  flatten (ok (err error), w) = (err (rejected error), w)
  flatten (err failure, w) = (err failure, w)

  -- `RawWs::request`
  unfoldable pub request :
      {T : Type 0}
      → (String → Option T)
      → Bool
      → ℕ
      → String
      → String
      → RawWs V
      → Result Failure T × RawWs V
  unfolding try_request
  request decode can_send within method params w =
      flatten (try_request decode can_send within method params w)

  -- `RawWs::subscribe`, and the methods for each topic
  unfoldable pub subscribe :
      (String → Option ℕ) → Bool → ℕ → Topic → String → RawWs V → Result Failure ℕ × RawWs V
  unfolding request subscribe_method
  subscribe decode can_send within topic params w =
      request decode can_send within (subscribe_method topic) params w

  -- `RawWs::unsubscribe`; `only` writes the parameters.
  unfoldable pub unsubscribe :
      (String → Option Bool)
      → (ℕ → String)
      → Bool
      → ℕ
      → Topic
      → ℕ
      → RawWs V
      → Result Failure Bool × RawWs V
  unfolding request unsubscribe_method
  unsubscribe decode only can_send within topic subscription w =
      request decode can_send within (unsubscribe_method topic) (only subscription) w

  abbrev pub is_ok : {A : Type 0} → Result Failure A → Bool
  is_ok (ok a) = true
  is_ok (err failure) = false

  -- `RawWs::responsive`
  unfoldable pub responsive : (String → Option ℕ) → Bool → ℕ → String → RawWs V → Bool × RawWs V
  unfolding subscribe
  responsive decode can_send within params w =
      let (r, w') = subscribe decode can_send within Topic.account params w in (is_ok r, w')

  unfoldable pub next_queued :
      ℕ → List (RawNotification V) → RawWs V → Result Failure (Option (RawNotification V)) × RawWs V
  unfolding read_until next_turn
  next_queued within [] w =
      read_until (λ t. next_turn value (parse (envelope t))) closed_request (ok none) within
        w.unread w
  next_queued within (n ∷ ns) w = (ok (some n), record w { queue = ns })

  -- `RawWs::next_notification`
  unfoldable pub next_notification :
      ℕ → RawWs V → Result Failure (Option (RawNotification V)) × RawWs V
  unfolding next_queued
  next_notification within w = next_queued within w.queue w
