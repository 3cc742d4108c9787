-- ===== src/Subscription.antt =====
-- core/src/transport/subscription.rs: the router of a websocket connection, which matches the server's
-- frames with the requests and the subscriptions, and the connection that issues the requests. An
-- `async` operation is given in the parts between its waits. The state behind the router, its hooks
-- and the callback are arguments, and so is `parse_id`, the JSON decoder at u64.
pub mod Connection
pub mod Acknowledge
pub mod Scope
pub mod Frames
pub mod Numbers
pub mod Moves
pub mod Books
mod Tests
use redsuite.Prelude.{
  ℕ, ◌+◌, Bool, true, false, ◌&&◌, [], Option, none, some, String, Result, ok, err, ensure, ◌>>◌,
  ◌==◌, string_eq, if◌then◌else◌, Table, get, remove, insert,
}
use redsuite.Socket.{
  CloseReason, server_error, invalid_reply, ErrorCode, invalid_params, RpcError, Frame, reply,
  notification, malformed, Dispatched,
}

pub data Topic : Type 0 where
  account failure logs program signature slot : Topic

-- `Topic::methods`
unfoldable pub methods : Topic → String × String
methods account = ("accountSubscribe", "accountUnsubscribe")
methods failure = ("transactionFailureSubscribe", "transactionFailureUnsubscribe")
methods logs = ("logsSubscribe", "logsUnsubscribe")
methods program = ("programSubscribe", "programUnsubscribe")
methods signature = ("signatureSubscribe", "signatureUnsubscribe")
methods slot = ("slotSubscribe", "slotUnsubscribe")

unfoldable pub subscribe_method : Topic → String
unfolding methods
subscribe_method topic = (methods topic).0

unfoldable pub unsubscribe_method : Topic → String
unfolding methods
unsubscribe_method topic = (methods topic).1

-- The trait `SubscriptionState`, less its type of keys.
pub record SubscriptionState (S : Type 0) : Type 0 where
  pub on_subscribed : S → ℕ → S
  pub on_malformed : S → S
  pub on_close : S → CloseReason → S

pub data Request (K : Type 0) : Type 0 where
  subscribe : (key : K) → Request K
  unsubscribe : Request K

-- `changed` counts the calls of `notify_waiters`, and `error` keeps the reason whose text the code
-- keeps.
pub record Router (S K : Type 0) : Type 0 where
  pub state : S
  pub requests : Table (Request K)
  pub subscriptions : Table K
  pub subscribed : ℕ
  pub last_reply : Option ℕ
  pub error : Option CloseReason
  pub changed : ℕ

-- What a callback answers about its subscription.
pub data ControlFlow : Type 0 where
  go_on break_off : ControlFlow

-- An error that answers the cleanup of a route that the server has retired.
unfoldable pub is_retired : RpcError → Bool
is_retired e = elim e.code [ invalid_params ↦ e.message == "Invalid subscription id." | _ ↦ false ]

-- What a call of the router can fail with.
pub data Failure : Type 0 where
  ws_stream : CloseReason → Failure
  reader_stopped : Failure

module _ {S K : Type 0} where
  unfoldable pub new : S → Router S K
  new s = record {
    state = s;
    requests = [];
    subscriptions = [];
    subscribed = 0;
    last_reply = none;
    error = none;
    changed = 0;
  }

  unfoldable pub register : ℕ → K → Router S K → Router S K
  register id key r = record r { requests = insert id (subscribe key) r.requests }

  unfoldable pub notify_waiters : Router S K → Router S K
  notify_waiters r = record r { changed = r.changed + 1 }

  unfoldable pub close : SubscriptionState S → CloseReason → Router S K → Router S K
  unfolding notify_waiters
  close hooks why r =
      notify_waiters (record r { error = some why; state = hooks.on_close r.state why })

  unfoldable pub router_error : Router S K → Result Failure (Unit {0})
  router_error r = elim r.error [ none ↦ ok tt | some why ↦ err (ws_stream why) ]

module _ {S K : Type 0} (hooks : SubscriptionState S) (parse_id : String → Option ℕ)
    (on_notification : S → K → String → S × ControlFlow) where
  -- A reply to a request to subscribe, by the number that it holds.
  unfoldable pub acknowledge : Option ℕ → K → Router S K → Dispatched (Router S K)
  unfolding notify_waiters
  acknowledge none key r = (r, err invalid_reply)
  acknowledge (some subscription) key r = (
    notify_waiters (record r {
      subscriptions = insert subscription key r.subscriptions;
      subscribed = r.subscribed + 1;
      state = hooks.on_subscribed r.state (r.subscribed + 1);
    }),
    ok tt,
  )

  -- An error that answers an unsubscription, by whether the route had been retired.
  unfoldable pub forgive : Bool → RpcError → Router S K → Dispatched (Router S K)
  unfolding notify_waiters
  forgive true e r = (notify_waiters r, ok tt)
  forgive false e r = (r, err (server_error e))

  -- A reply, for the request that it has removed.
  unfoldable pub settle :
      Option (Request K) → Result RpcError String → Router S K → Dispatched (Router S K)
  unfolding acknowledge forgive notify_waiters is_retired
  settle (some (subscribe key)) (ok raw) r = acknowledge (parse_id raw) key r
  settle (some unsubscribe) (err e) r = forgive (is_retired e) e r
  settle (some (subscribe key)) (err e) r = (r, err (server_error e))
  settle none (err e) r = (r, err (server_error e))
  settle (some unsubscribe) (ok raw) r = (notify_waiters r, ok tt)
  settle none (ok raw) r = (notify_waiters r, ok tt)

  -- A callback's answer for a subscription: `Break` removes it.
  unfoldable pub after_callback : ℕ → S × ControlFlow → Router S K → Router S K
  after_callback subscription (s, go_on) r = record r { state = s }
  after_callback subscription (s, break_off) r = record r {
    state = s;
    subscriptions = remove subscription r.subscriptions;
  }

  unfoldable pub route : Option K → ℕ → String → Router S K → Router S K
  unfolding after_callback notify_waiters
  route none subscription payload r = r
  route (some key) subscription payload r =
      notify_waiters (after_callback subscription (on_notification r.state key payload) r)

  unfoldable pub dispatch : Frame → Router S K → Dispatched (Router S K)
  unfolding settle route notify_waiters
  dispatch (reply id result) r =
      settle (get id r.requests) result
        (record r { last_reply = some id; requests = remove id r.requests })
  dispatch (notification method params) r =
      (route (get params.subscription r.subscriptions) params.subscription params.result r, ok tt)
  dispatch malformed r = (notify_waiters (record r { state = hooks.on_malformed r.state }), ok tt)
