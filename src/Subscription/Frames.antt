-- ===== src/Subscription/Frames.antt =====
-- core/src/transport/subscription.rs: what one dispatched frame does to the tables of a router.
use redsuite.Prelude.{
  ℕ, suc, ◌+◌, ◌≤◌, ◌≡◌, refl, ap, ◌⊎◌, inl, inr, Bool, true, false, Option, none, some, String,
  Result, ok, err, arith, length, Table, get, remove, insert, tally, Unique, remove_absent,
  tally-remove, tally-remove-le, length-remove-le,
}
use redsuite.Socket.{RpcError, Frame, reply, notification, malformed, Dispatched}
use redsuite.Subscription.{
  SubscriptionState, Request, subscribe, unsubscribe, Router, ControlFlow, go_on, break_off, settle,
  acknowledge, forgive, notify_waiters, after_callback, route, dispatch, is_retired,
}
use redsuite.Subscription.Scope.{is_subscribe, pending}

-- The tables of requests that one answer can leave.
abbrev pub Answered : {V : Type 0} → Table V → Table V → Type 0
Answered before after = (after ≡ before) ⊎ ((id : ℕ) × (after ≡ remove id before))

-- What a dispatched frame does to the counts, if the reader goes on and if not.
pub record Kept {S K : Type 0} (r r' : Router S K) : Type 0 where
  pub counted : pending r' + r'.subscribed ≡ pending r + r.subscribed
  pub active : length r'.subscriptions + r.subscribed ≤ length r.subscriptions + r'.subscribed
  pub requests : Answered r.requests r'.requests

pub record Lost {S K : Type 0} (r r' : Router S K) : Type 0 where
  pub at_most : pending r' ≤ pending r
  pub at_least : pending r ≤ suc (pending r')
  pub subscribed : r'.subscribed ≡ r.subscribed
  pub subscriptions : r'.subscriptions ≡ r.subscriptions
  pub requests : Answered r.requests r'.requests

abbrev pub Judged : {S K : Type 0} → Router S K → Dispatched (Router S K) → Type 0
Judged r (r', ok u) = Kept r r'
Judged r (r', err why) = Lost r r'

module _ {S K : Type 0} (hooks : SubscriptionState S) (parse_id : String → Option ℕ)
    (on_notification : S → K → String → S × ControlFlow) where
  acknowledge-Judged :
      (id : ℕ) (key : K) (o : Option ℕ) (r : Router S K)
      → Unique r.requests
      → get id r.requests ≡ some (subscribe key)
      → Judged r (
          acknowledge hooks parse_id on_notification o key
            (record r { last_reply = some id; requests = remove id r.requests }))
  unfolding acknowledge notify_waiters pending is_subscribe insert tally
  acknowledge-Judged id key none r u e = record {
    at_most = tally-remove-le is_subscribe id r.requests;
    at_least = omega (arith, tally-remove is_subscribe id (subscribe key) r.requests u e);
    subscribed = refl;
    subscriptions = refl;
    requests = inr (id, refl);
  }
  acknowledge-Judged id key (some subscription) r u e = record {
    counted = omega (arith, tally-remove is_subscribe id (subscribe key) r.requests u e);
    active = omega (arith, length-remove-le subscription r.subscriptions);
    requests = inr (id, refl);
  }

  forgive-Judged :
      (id : ℕ) (retired : Bool) (why : RpcError) (r : Router S K)
      → Unique r.requests
      → get id r.requests ≡ some unsubscribe
      → Judged r (
          forgive hooks parse_id on_notification retired why
            (record r { last_reply = some id; requests = remove id r.requests }))
  unfolding forgive notify_waiters pending is_subscribe tally
  forgive-Judged id true why r u e = record {
    counted = omega (arith, tally-remove is_subscribe id unsubscribe r.requests u e);
    active = omega arith;
    requests = inr (id, refl);
  }
  forgive-Judged id false why r u e =
      let gone = tally-remove is_subscribe id unsubscribe r.requests u e in
      record {
        at_most = omega (arith, gone);
        at_least = omega (arith, gone);
        subscribed = refl;
        subscriptions = refl;
        requests = inr (id, refl);
      }

  settle-Judged :
      (id : ℕ) (o : Option (Request K)) (result : Result RpcError String) (r : Router S K)
      → Unique r.requests
      → get id r.requests ≡ o
      → Judged r (
          settle hooks parse_id on_notification o result
            (record r { last_reply = some id; requests = remove id r.requests }))
  unfolding settle notify_waiters pending is_subscribe tally
  settle-Judged id (some (subscribe key)) (ok raw) r u e =
      acknowledge-Judged id key (parse_id raw) r u e
  settle-Judged id (some (subscribe key)) (err why) r u e = record {
    at_most = tally-remove-le is_subscribe id r.requests;
    at_least = omega (arith, tally-remove is_subscribe id (subscribe key) r.requests u e);
    subscribed = refl;
    subscriptions = refl;
    requests = inr (id, refl);
  }
  settle-Judged id (some unsubscribe) (ok raw) r u e = record {
    counted = omega (arith, tally-remove is_subscribe id unsubscribe r.requests u e);
    active = omega arith;
    requests = inr (id, refl);
  }
  settle-Judged id (some unsubscribe) (err why) r u e = forgive-Judged id (is_retired why) why r u e
  settle-Judged id none (ok raw) r u e = record {
    counted = ap (λ t. tally is_subscribe t + r.subscribed) (remove_absent id r.requests e);
    active = omega arith;
    requests = inr (id, refl);
  }
  settle-Judged id none (err why) r u e =
      let same = ap (tally is_subscribe) (remove_absent id r.requests e) in
      record {
        at_most = omega (arith, same);
        at_least = omega (arith, same);
        subscribed = refl;
        subscriptions = refl;
        requests = inr (id, refl);
      }

  after_callback-Kept :
      (subscription : ℕ) (answer : S × ControlFlow) (r : Router S K)
      → Kept r
          (notify_waiters (after_callback hooks parse_id on_notification subscription answer r))
  unfolding after_callback notify_waiters pending
  after_callback-Kept subscription (s, go_on) r = record {
    counted = refl;
    active = omega arith;
    requests = inl refl;
  }
  after_callback-Kept subscription (s, break_off) r = record {
    counted = refl;
    active = omega (arith, length-remove-le subscription r.subscriptions);
    requests = inl refl;
  }

  route-Kept :
      (key : Option K) (subscription : ℕ) (payload : String) (r : Router S K)
      → Kept r (route hooks parse_id on_notification key subscription payload r)
  unfolding route
  route-Kept none subscription payload r = record {
    counted = refl;
    active = omega arith;
    requests = inl refl;
  }
  route-Kept (some key) subscription payload r =
      after_callback-Kept subscription (on_notification r.state key payload) r

  pub dispatch-Judged :
      (frame : Frame) (r : Router S K)
      → Unique r.requests
      → Judged r (dispatch hooks parse_id on_notification frame r)
  unfolding dispatch notify_waiters pending
  dispatch-Judged (reply id result) r u = settle-Judged id (get id r.requests) result r u refl
  dispatch-Judged (notification method params) r u =
      route-Kept (get params.subscription r.subscriptions) params.subscription params.result r
  dispatch-Judged malformed r u = record {
    counted = refl;
    active = omega arith;
    requests = inl refl;
  }
