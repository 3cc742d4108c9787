-- ===== src/Subscription/Books.antt =====
-- core/src/transport/subscription.rs: the books of a connection, over the requests it has issued and the
-- subscriptions that the server has acknowledged.
use redsuite.Prelude.{ℕ, ◌≡◌, subst, Option, String, ok, err, PartialEq}
use redsuite.Socket.{stream_ended, CloseReason, Dispatched}
use redsuite.Subscription.Frames.{Kept, Lost, Judged, dispatch-Judged}
use redsuite.Subscription.{SubscriptionState, Router, ControlFlow}
use redsuite.Subscription.Connection.{stop, end_reader, find_subscription, begin_unsubscribe}
use redsuite.Subscription.Scope.{
  System, Step, subscribes, sends, reads, breaks, ends, stops, withdraws, leaves, unsubscribes,
  Reach, start, next,
}
use redsuite.Subscription.Moves.{
  Inv, opened-Inv, reads-Inv, breaks-Inv, leaves-Inv, unsubscribes-Inv, subscribes-Inv,
  withdraws-Inv, closes-Inv, sends-Inv,
}

module _ {S K : Type 0} ⦃e : PartialEq K⦄ (hooks : SubscriptionState S)
    (parse_id : String → Option ℕ) (on_notification : S → K → String → S × ControlFlow) where
  Judged-ok :
      (r : Router S K) (d : Dispatched (Router S K)) (after : Router S K)
      → Judged r d
      → d ≡ (after, ok tt)
      → Kept r after
  Judged-ok r d after j at = subst (Judged r) at j

  Judged-err :
      (r : Router S K) (d : Dispatched (Router S K)) (after : Router S K) (why : CloseReason)
      → Judged r d
      → d ≡ (after, err why)
      → Lost r after
  Judged-err r d after why j at = subst (Judged r) at j

  Step-Inv : {s t : System S K} → Step hooks parse_id on_notification s t → Inv s → Inv t
  unfolding begin_unsubscribe stop end_reader
  Step-Inv (subscribes s key) v = subscribes-Inv hooks parse_id on_notification s key v
  Step-Inv (sends s id sent issued) v = sends-Inv hooks parse_id on_notification s id sent issued v
  Step-Inv (reads s frame after open_ at) v =
      reads-Inv hooks parse_id on_notification s after
        (Judged-ok _ _ after
          (dispatch-Judged hooks parse_id on_notification frame s.connection.router v.unique) at)
        v
  Step-Inv (breaks s frame after why open_ at) v =
      breaks-Inv hooks parse_id on_notification s after why open_
        (Judged-err _ _ after why
          (dispatch-Judged hooks parse_id on_notification frame s.connection.router v.unique) at)
        v
  Step-Inv (ends s why) v = closes-Inv hooks parse_id on_notification s why v
  Step-Inv (stops s) v = closes-Inv hooks parse_id on_notification s stream_ended v
  Step-Inv (withdraws s key) v = withdraws-Inv hooks parse_id on_notification s key v
  Step-Inv (leaves s key) v =
      leaves-Inv hooks parse_id on_notification s
        (find_subscription key s.connection.router.subscriptions) v
  Step-Inv (unsubscribes s id subscription at) v =
      unsubscribes-Inv hooks parse_id on_notification s id subscription at v

  -- In every state that a connection can reach: each call of `subscribe` is acknowledged, still
  -- pending, withdrawn, or the one refused; at most one is refused, and none while the reader runs; the
  -- active subscriptions are at most the acknowledged ones; every number sent or pending has been
  -- issued; no two pending requests share a number; and an unsubscription that waits for the lock
  -- shares its number with none of them.
  pub Reach-Books : {s : System S K} → Reach hooks parse_id on_notification s → Inv s
  Reach-Books (start initial) = opened-Inv initial
  Reach-Books (next r st) = Step-Inv st (Reach-Books r)
