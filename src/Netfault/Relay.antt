-- ===== src/Netfault/Relay.antt =====
-- core/src/netfault/ws.rs and core/src/netfault/http.rs: the relays between a client and the validator. What
-- a websocket relay has sent to either side is kept in order. `none` ends the relay, and sending, which
-- fails only when the other side is gone, is taken to succeed. The parsing of a text is the argument
-- `parse`, and `none` of it is a text that is not JSON.
use Prim.Native.String as Text
use redsuite.Prelude.{
  ℕ, Bool, true, false, ◌||◌, List, [], ◌∷◌, ◌++◌, Option, none, some, String, ◌==◌, string_eq,
  if◌then◌else◌, Table, get, insert, remove,
}
use redsuite.Netfault.{
  Operation, ws, Stage, Decision, release, discard, reject, Gate, decided, held, stalled, State,
  Counters, gate,
}
use redsuite.Netfault.Rpc.{
  Json, id_of, subscription_of, request_of, notification_of, Rejection, rejection, or_null,
}

unfoldable pub ends_with : String → String → Bool
ends_with Text.[] t = t == ""
ends_with (Text.◌∷◌ c s) t = let rest = ends_with s t in ((Text.◌∷◌ c s) == t) || rest

pub data RelayFrame : Type 0 where
  text : String → RelayFrame
  close other : RelayFrame

-- A map with texts as keys.
module _ {V : Type 0} where
  unfoldable pub lookup : String → List (String × V) → Option V
  lookup k [] = none
  lookup k ((i, v) ∷ m) = if i == k then some v else lookup k m

  unfoldable pub drop_key : String → List (String × V) → List (String × V)
  drop_key k [] = []
  drop_key k ((i, v) ∷ m) = let rest = drop_key k m in if i == k then rest else (i, v) ∷ rest

module _ (j : Json) where
  open j use {Value, null, field, item, as_u64, as_bool}

  pub data Sent : Type 0 where
    frame : RelayFrame → Sent
    refusal : Rejection j → Sent

  -- A response that waits for its gate.
  pub record Waiting : Type 0 where
    pub gate : Gate
    pub message : String
    pub parsed : Value

  pub record WsRelay : Type 0 where
    pub to_server : List RelayFrame
    pub to_client : List Sent
    pub pending : List (String × (Operation × Option ℕ))
    pub subscriptions : Table Operation
    pub tasks : List Waiting

  unfoldable pub send_client : Sent → WsRelay → WsRelay
  send_client sent r = record r { to_client = r.to_client ++ sent ∷ [] }

  unfoldable pub send_server : RelayFrame → WsRelay → WsRelay
  send_server f r = record r { to_server = r.to_server ++ f ∷ [] }

  -- What a rejected response tells the client: a notification tells nothing.
  unfoldable pub refuse : Option ℕ → Value → String → WsRelay → WsRelay
  unfolding send_client rejection
  refuse (some subscription) parsed message r = r
  refuse none parsed message r = send_client (refusal (rejection j parsed message)) r

  -- `deliver`
  unfoldable pub deliver : Decision → String → Value → WsRelay → WsRelay
  unfolding refuse subscription_of send_client
  deliver discard t parsed r = r
  deliver (reject message) t parsed r = refuse (subscription_of j parsed) parsed message r
  deliver release t parsed r = send_client (frame (text t)) r

  -- The subscription that a request ends.
  unfoldable pub unsubscribes : Operation → Value → Option ℕ
  unfolding ends_with
  unsubscribes o parsed =
      if ends_with o.method "Unsubscribe" then as_u64 (item 0 (field "params" parsed)) else none

  unfoldable pub remember : Option String → Operation → Value → WsRelay → WsRelay
  unfolding unsubscribes drop_key
  remember none o parsed r = r
  remember (some id) o parsed r = record r {
    pending = (id, (o, unsubscribes o parsed)) ∷ drop_key id r.pending;
  }

  -- A request past its gate.
  unfoldable pub request_decided : Decision → Operation → String → Value → WsRelay → Option WsRelay
  unfolding remember send_server send_client rejection id_of
  request_decided discard o t parsed r = none
  request_decided (reject message) o t parsed r =
      some (send_client (refusal (rejection j parsed message)) r)
  request_decided release o t parsed r =
      some (send_server (text t) (remember (id_of j parsed) o parsed r))

  -- The request that a reply answers, taken from the pending ones.
  unfoldable pub answered : Option (Operation × Option ℕ) → Operation × Option ℕ
  unfolding request_of
  answered none = (request_of j ws null, none)
  answered (some found) = found

  unfoldable pub take_pending : Option String → WsRelay → WsRelay × (Operation × Option ℕ)
  unfolding answered drop_key lookup
  take_pending none r = (r, answered none)
  take_pending (some id) r =
      (record r { pending = drop_key id r.pending }, answered (lookup id r.pending))

  -- The routes after a reply: its result may be a new subscription, or the end of one.
  unfoldable pub open_route : Operation → Option ℕ → Table Operation → Table Operation
  unfolding ends_with
  open_route o none routes = routes
  open_route o (some id) routes =
      if ends_with o.method "Subscribe" then insert id o routes else routes

  unfoldable pub close_route : Option Bool → Option ℕ → Table Operation → Table Operation
  close_route (some true) (some id) routes = remove id routes
  close_route (some true) none routes = routes
  close_route (some false) id routes = routes
  close_route none id routes = routes

  unfoldable pub reply_operation : WsRelay × (Operation × Option ℕ) → Value → WsRelay × Operation
  unfolding open_route close_route
  reply_operation (r, (o, unsubscribed)) parsed = (
    record r {
      subscriptions =
          close_route (as_bool (field "result" parsed)) unsubscribed
            (open_route o (as_u64 (field "result" parsed)) r.subscriptions);
    },
    record o { stage = Stage.response },
  )

  unfoldable pub operation_by : Option ℕ → Value → WsRelay → WsRelay × Operation
  unfolding reply_operation take_pending notification_of id_of
  operation_by (some subscription) parsed r =
      (r, notification_of j parsed (get subscription r.subscriptions))
  operation_by none parsed r = reply_operation (take_pending (id_of j parsed) r) parsed

  -- `WsRelay::response_operation`
  unfoldable pub response_operation : Value → WsRelay → WsRelay × Operation
  unfolding operation_by subscription_of
  response_operation parsed r = operation_by (subscription_of j parsed) parsed r

  -- A response at its gate: decided at once, or left to a task.
  unfoldable pub at_gate : Gate → String → Value → WsRelay → WsRelay
  unfolding deliver
  at_gate (decided d) t parsed r = deliver d t parsed r
  at_gate (held n) t parsed r = record r {
    tasks = r.tasks ++ record { gate = held n; message = t; parsed = parsed } ∷ [];
  }
  at_gate (stalled a) t parsed r = record r {
    tasks = r.tasks ++ record { gate = stalled a; message = t; parsed = parsed } ∷ [];
  }

  pub record Relayed : Type 0 where
    pub relay : WsRelay
    pub state : State
    pub counters : Counters

  unfoldable pub response_parsed : Option Value → String → State → Counters → WsRelay → Relayed
  unfolding response_operation at_gate send_client
  response_parsed none t s c r = record {
    relay = send_client (frame (text t)) r;
    state = s;
    counters = c;
  }
  response_parsed (some parsed) t s c r =
      let (r', o) = response_operation parsed r in
      let p = gate s c o in
      record { relay = at_gate p.gate t parsed r'; state = p.state; counters = p.counters }

  -- `WsRelay::response`
  unfoldable pub response :
      (String → Option Value) → RelayFrame → State → Counters → WsRelay → Option Relayed
  unfolding response_parsed send_client
  response parse (text t) s c r = some (response_parsed (parse t) t s c r)
  response parse close s c r = none
  response parse other s c r =
      some (record { relay = send_client (frame other) r; state = s; counters = c })

  -- `WsRelay::request`, with the decision that the gate comes to about an operation. A text that is not
  -- JSON is taken as the null value.
  unfoldable pub request :
      (String → Option Value) → (Operation → Decision) → RelayFrame → WsRelay → Option WsRelay
  unfolding request_decided send_server request_of
  request parse decide (text t) r =
      let parsed = or_null j (parse t) in
      let o = request_of j ws parsed in request_decided (decide o) o t parsed r
  request parse decide close r = none
  request parse decide other r = some (send_server other r)
