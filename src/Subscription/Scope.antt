-- ===== src/Subscription/Scope.antt =====
-- core/src/transport/subscription.rs: a connection in use, through any order of the steps of its tasks
-- and of the frames that its reader dispatches.
use redsuite.Prelude.{
  ℕ, ◌+◌, ◌-◌, ◌≡◌, ◌<◌, Bool, true, false, [], Option, none, some, String, Result, ok, err,
  PartialEq, Table, get, remove, insert, tally,
}
use redsuite.Socket.{CloseReason, Frame}
use redsuite.Subscription.{
  SubscriptionState, Request, subscribe, unsubscribe, Router, ControlFlow, dispatch,
}
use redsuite.Subscription.Connection.{
  Connection, connect, begin_subscribe, finish_send, stop, end_reader, register_unsubscribe,
  withdraw, begin_unsubscribe,
}

unfoldable pub is_subscribe : {K : Type 0} → Request K → Bool
is_subscribe (subscribe key) = true
is_subscribe unsubscribe = false

-- The pending requests to subscribe.
unfoldable pub pending : {S K : Type 0} → Router S K → ℕ
unfolding is_subscribe
pending r = tally is_subscribe r.requests

-- `leaving` are the unsubscriptions that wait for the lock, with their subscriptions. `asked` counts
-- the calls of `subscribe`, `withdrawn` the requests withdrawn by `unsubscribe`, and `refused` the
-- request whose answer ended the reader.
pub record System (S K : Type 0) : Type 0 where
  pub connection : Connection S K
  pub leaving : Table ℕ
  pub asked : ℕ
  pub withdrawn : ℕ
  pub refused : ℕ

abbrev pub opened : {S K : Type 0} → S → System S K
opened s = record { connection = connect s; leaving = []; asked = 0; withdrawn = 0; refused = 0 }

abbrev pub with_leaving : Option (ℕ × ℕ) → Table ℕ → Table ℕ
with_leaving none t = t
with_leaving (some (id, subscription)) t = insert id subscription t

abbrev pub with_router : {S K : Type 0} → Connection S K → Router S K → Connection S K
with_router c r = record c { router = r }

module _ {S K : Type 0} ⦃e : PartialEq K⦄ (hooks : SubscriptionState S)
    (parse_id : String → Option ℕ) (on_notification : S → K → String → S × ControlFlow) where
  pub data Step : System S K → System S K → Type 0 where
    subscribes :
        (s : System S K) (key : K)
        → Step s
            (record s { connection = (begin_subscribe key s.connection).0; asked = s.asked + 1 })
    -- A request that holds the lock has been sent, or not.
    sends :
        (s : System S K) (id : ℕ) (sent : Result String (Unit {0}))
        → id < s.connection.next_id
        → Step s (record s { connection = (finish_send id sent s.connection).0 })
    reads :
        (s : System S K) (frame : Frame) (after : Router S K)
        → s.connection.finished ≡ false
        → dispatch hooks parse_id on_notification frame s.connection.router ≡ (after, ok tt)
        → Step s (record s { connection = with_router s.connection after })
    breaks :
        (s : System S K) (frame : Frame) (after : Router S K) (why : CloseReason)
        → s.connection.finished ≡ false
        → dispatch hooks parse_id on_notification frame s.connection.router ≡ (after, err why)
        → Step s (record s {
          connection = end_reader hooks why (with_router s.connection after);
          refused = s.refused + (pending s.connection.router - pending after);
        })
    -- The stream ends, or the connection is stopped.
    ends :
        (s : System S K) (why : CloseReason)
        → Step s (record s { connection = end_reader hooks why s.connection })
    stops : (s : System S K) → Step s (record s { connection = stop hooks s.connection })
    withdraws :
        (s : System S K) (key : K)
        → Step s (record s {
          connection = withdraw key s.connection;
          withdrawn =
              s.withdrawn
              + (pending s.connection.router - pending (withdraw key s.connection).router);
        })
    leaves :
        (s : System S K) (key : K)
        → Step s (record s {
          connection = (begin_unsubscribe key s.connection).0;
          leaving = with_leaving (begin_unsubscribe key s.connection).1 s.leaving;
        })
    unsubscribes :
        (s : System S K) (id subscription : ℕ)
        → get id s.leaving ≡ some subscription
        → Step s (record s {
          connection = register_unsubscribe id s.connection;
          leaving = remove id s.leaving;
        })

  pub data Reach : System S K → Type 0 where
    start : (initial : S) → Reach (opened initial)
    next : {s t : System S K} → Reach s → Step s t → Reach t
