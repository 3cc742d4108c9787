-- ===== src/Subscription/Connection.antt =====
-- core/src/transport/subscription.rs: `Connection`, in the parts between its waits. An operation first
-- takes its request's number and changes the tables; once it holds the lock of the sink it sends,
-- and what became of that is the argument `sent`. A search through a table stops at its first match.
use redsuite.Prelude.{
  ℕ, ◌+◌, Bool, true, false, not, [], ◌∷◌, Option, none, some, Result, ok, err, ensure, ◌>>◌,
  PartialEq, ◌==◌, leb, if◌then◌else◌, Table, remove, insert,
}
use redsuite.Socket.{CloseReason, stream_ended}
use redsuite.Subscription.{
  SubscriptionState, Request, subscribe, unsubscribe, Router, new, register, close, router_error,
  Failure, reader_stopped,
}

-- `finished` is whether the reader task has ended.
pub record Connection (S K : Type 0) : Type 0 where
  pub next_id : ℕ
  pub last_sent : ℕ
  pub router : Router S K
  pub finished : Bool

module _ {S K : Type 0} where
  unfoldable pub connect : S → Connection S K
  unfolding new
  connect s = record { next_id = 1; last_sent = 0; router = new s; finished = false }

  -- `subscribe` up to the lock: the number of the request, registered before it is sent.
  unfoldable pub begin_subscribe : K → Connection S K → Connection S K × ℕ
  unfolding register
  begin_subscribe key c =
      (record c { next_id = c.next_id + 1; router = register c.next_id key c.router }, c.next_id)

  -- The end of a request: `last_sent` moves when the frame went out.
  unfoldable pub finish_send {ℓ} :
      {E : Type ℓ} → ℕ → Result E (Unit {0}) → Connection S K → Connection S K × Result E (Unit {0})
  finish_send id (ok u) c = (record c { last_sent = id }, ok u)
  finish_send id (err e) c = (c, err e)

  unfoldable pub check_error : Connection S K → Result Failure (Unit {0})
  unfolding router_error
  check_error c = router_error c.router >> ensure (not c.finished) reader_stopped

  -- What the wait of `await_subscribed` observes.
  unfoldable pub observe_subscribed : ℕ → Connection S K → Result Failure (Option (Unit {0}))
  unfolding check_error
  observe_subscribed count c =
      check_error c >> ok (if leb count c.router.subscribed then some tt else none)

  unfoldable pub stop : SubscriptionState S → Connection S K → Connection S K
  unfolding close
  stop hooks c = record c { router = close hooks stream_ended c.router; finished = true }

  -- The task of the reader, when its loop has ended.
  unfoldable pub end_reader : SubscriptionState S → CloseReason → Connection S K → Connection S K
  unfolding close
  end_reader hooks why c = record c { router = close hooks why c.router; finished = true }

  -- `unsubscribe` with the lock held: the request that it then sends.
  unfoldable pub register_unsubscribe : ℕ → Connection S K → Connection S K
  register_unsubscribe id c = record c {
    router = record c.router { requests = insert id unsubscribe c.router.requests };
  }

  -- The request that an unsubscription issues for a route, if there is one.
  unfoldable pub retire_route : Option ℕ → Connection S K → Connection S K × Option (ℕ × ℕ)
  retire_route none c = (c, none)
  retire_route (some subscription) c = (
    record c {
      next_id = c.next_id + 1;
      router = record c.router { subscriptions = remove subscription c.router.subscriptions };
    },
    some (c.next_id, subscription),
  )

module _ {K : Type 0} ⦃e : PartialEq K⦄ where
  unfoldable pub subscribes_to : K → Request K → Bool
  subscribes_to key (subscribe active) = active == key
  subscribes_to key unsubscribe = false

  -- `requests.values().any(…)`
  unfoldable pub awaits : K → Table (Request K) → Bool
  unfolding subscribes_to
  awaits key [] = false
  awaits key ((id, request) ∷ rest) = if subscribes_to key request then true else awaits key rest

  -- `requests.retain(…)`
  unfoldable pub withdrawn : K → Table (Request K) → Table (Request K)
  unfolding subscribes_to
  withdrawn key [] = []
  withdrawn key ((id, request) ∷ rest) =
      let kept = withdrawn key rest in
      if subscribes_to key request then kept else (id, request) ∷ kept

  -- `subscriptions.iter().find_map(…)`
  unfoldable pub find_subscription : K → Table K → Option ℕ
  find_subscription key [] = none
  find_subscription key ((id, active) ∷ rest) =
      if active == key then some id else find_subscription key rest

module _ {S K : Type 0} ⦃e : PartialEq K⦄ where
  -- What the wait of `await_ack` observes.
  unfoldable pub observe_ack : K → Connection S K → Result Failure (Option (Unit {0}))
  unfolding check_error awaits
  observe_ack key c = check_error c >> ok (if awaits key c.router.requests then none else some tt)

  -- `unsubscribe` when the wait for the acknowledgment fails.
  unfoldable pub withdraw : K → Connection S K → Connection S K
  unfolding withdrawn
  withdraw key c = record c {
    router = record c.router { requests = withdrawn key c.router.requests };
  }

  -- `unsubscribe` from the acknowledgment up to the lock.
  unfoldable pub begin_unsubscribe : K → Connection S K → Connection S K × Option (ℕ × ℕ)
  unfolding retire_route find_subscription
  begin_unsubscribe key c = retire_route (find_subscription key c.router.subscriptions) c
