-- ===== src/Subscription/Moves.antt =====
-- core/src/transport/subscription.rs: the invariant of a connection, and each of its operations against it.
use redsuite.Prelude.{
  ℕ, ◌+◌, ◌-◌, ◌≤◌, ◌<◌, ◌≡◌, refl, ap, inl, false, Option, none, some, String, Result, ok, err,
  arith, length, PartialEq, get, remove, insert, tally, Below, Unique, Below-weaken, get-Below,
  remove-Below, insert-Unique, remove_absent, length-remove-le,
}
use redsuite.Socket.{CloseReason}
use redsuite.Subscription.Numbers.{
  Apart, Apart-Answered, Apart-fresh-left, Apart-fresh-right, Apart-move, Apart-Withdrawn,
  withdrawn-Withdrawn, get-Apart, lt_of_get, Unique-Answered, Below-Answered,
}
use redsuite.Subscription.Frames.{Kept, Lost}
use redsuite.Subscription.{
  SubscriptionState, subscribe, unsubscribe, Router, ControlFlow, notify_waiters, close, register,
  new,
}
use redsuite.Subscription.Connection.{
  connect, begin_subscribe, finish_send, end_reader, register_unsubscribe, withdraw, retire_route,
}
use redsuite.Subscription.Scope.{System, is_subscribe, pending, opened, with_router, with_leaving}

pub record Inv {S K : Type 0} (s : System S K) : Type 0 where
  pub balanced :
      pending s.connection.router + s.connection.router.subscribed + s.withdrawn + s.refused
      ≡ s.asked
  pub active : length s.connection.router.subscriptions ≤ s.connection.router.subscribed
  pub refused_bound : s.refused ≤ 1
  pub refused_open : s.connection.finished ≡ false → s.refused ≡ 0
  pub sent : s.connection.last_sent < s.connection.next_id
  pub unique : Unique s.connection.router.requests
  pub below : Below s.connection.next_id s.connection.router.requests
  pub leaving_below : Below s.connection.next_id s.leaving
  pub apart : Apart s.leaving s.connection.router.requests

pub opened-Inv : {S K : Type 0} (initial : S) → Inv {S = S} {K = K} (opened initial)
unfolding connect new pending tally get
opened-Inv initial = record {
  balanced = refl;
  active = omega arith;
  refused_bound = omega arith;
  refused_open = λ _. refl;
  sent = omega arith;
  unique = tt;
  below = tt;
  leaving_below = tt;
  apart = λ j. inl refl;
}

module _ {S K : Type 0} ⦃e : PartialEq K⦄ (hooks : SubscriptionState S)
    (parse_id : String → Option ℕ) (on_notification : S → K → String → S × ControlFlow) where
  pub reads-Inv :
      (s : System S K) (after : Router S K)
      → Kept s.connection.router after
      → Inv s
      → Inv (record s { connection = with_router s.connection after })
  reads-Inv s after k v = record {
    balanced = omega (arith, k.counted, v.balanced);
    active = omega (arith, k.active, v.active);
    refused_bound = v.refused_bound;
    refused_open = v.refused_open;
    sent = v.sent;
    unique = Unique-Answered _ _ k.requests v.unique;
    below = Below-Answered _ _ _ k.requests v.below;
    leaving_below = v.leaving_below;
    apart = Apart-Answered _ _ _ k.requests v.apart;
  }

  pub breaks-Inv :
      (s : System S K) (after : Router S K) (why : CloseReason)
      → s.connection.finished ≡ false
      → Lost s.connection.router after
      → Inv s
      → Inv (record s {
        connection = end_reader hooks why (with_router s.connection after);
        refused = s.refused + (pending s.connection.router - pending after);
      })
  unfolding end_reader close notify_waiters pending
  breaks-Inv s after why open_ k v =
      let none_yet = v.refused_open open_ in
      record {
        balanced = omega (arith, k.at_most, k.subscribed, v.balanced);
        active = omega (arith, ap length k.subscriptions, k.subscribed, v.active);
        refused_bound = omega (arith, none_yet, k.at_least);
        refused_open = λ no_. absurd (cc);
        sent = v.sent;
        unique = Unique-Answered _ _ k.requests v.unique;
        below = Below-Answered _ _ _ k.requests v.below;
        leaving_below = v.leaving_below;
        apart = Apart-Answered _ _ _ k.requests v.apart;
      }

  pub leaves-Inv :
      (s : System S K) (o : Option ℕ)
      → Inv s
      → Inv (record s {
        connection = (retire_route o s.connection).0;
        leaving = with_leaving (retire_route o s.connection).1 s.leaving;
      })
  unfolding retire_route pending insert
  leaves-Inv s none v = record {
    balanced = v.balanced;
    active = v.active;
    refused_bound = v.refused_bound;
    refused_open = v.refused_open;
    sent = v.sent;
    unique = v.unique;
    below = v.below;
    leaving_below = v.leaving_below;
    apart = v.apart;
  }
  leaves-Inv s (some subscription) v =
      let id = s.connection.next_id in
      record {
        balanced = v.balanced;
        active =
            omega
              (arith, length-remove-le subscription s.connection.router.subscriptions, v.active);
        refused_bound = v.refused_bound;
        refused_open = v.refused_open;
        sent = omega (arith, v.sent);
        unique = v.unique;
        below = Below-weaken id (id + 1) _ (omega arith) v.below;
        leaving_below = (
          omega arith,
          remove-Below _ id _ (Below-weaken id (id + 1) s.leaving (omega arith) v.leaving_below),
        );
        apart = Apart-fresh-left s.leaving _ id subscription v.below v.apart;
      }

  pub unsubscribes-Inv :
      (s : System S K) (id subscription : ℕ)
      → get id s.leaving ≡ some subscription
      → Inv s
      → Inv (record s {
        connection = register_unsubscribe id s.connection;
        leaving = remove id s.leaving;
      })
  unfolding register_unsubscribe pending tally insert is_subscribe
  unsubscribes-Inv s id subscription at v =
      let requests = s.connection.router.requests in
      let fresh = get-Apart s.leaving requests id subscription v.apart at in
      let issued = lt_of_get s.connection.next_id id s.leaving subscription v.leaving_below at in
      record {
        balanced =
            omega (arith, ap (tally is_subscribe) (remove_absent id requests fresh), v.balanced);
        active = v.active;
        refused_bound = v.refused_bound;
        refused_open = v.refused_open;
        sent = v.sent;
        unique = insert-Unique id unsubscribe requests v.unique;
        below = (issued, remove-Below _ id requests v.below);
        leaving_below = remove-Below _ id s.leaving v.leaving_below;
        apart = Apart-move s.leaving requests id unsubscribe v.apart;
      }

  pub subscribes-Inv :
      (s : System S K) (key : K)
      → Inv s
      → Inv (record s { connection = (begin_subscribe key s.connection).0; asked = s.asked + 1 })
  unfolding begin_subscribe register pending tally insert is_subscribe
  subscribes-Inv s key v =
      let id = s.connection.next_id in
      let requests = s.connection.router.requests in
      let same =
        ap (tally is_subscribe) (remove_absent id requests (get-Below id requests v.below)) in
      record {
        balanced = omega (arith, same, v.balanced);
        active = v.active;
        refused_bound = v.refused_bound;
        refused_open = v.refused_open;
        sent = omega (arith, v.sent);
        unique = insert-Unique id (subscribe key) requests v.unique;
        below = (
          omega arith,
          remove-Below _ id _ (Below-weaken id (id + 1) requests (omega arith) v.below),
        );
        leaving_below = Below-weaken id (id + 1) s.leaving (omega arith) v.leaving_below;
        apart = Apart-fresh-right s.leaving requests id (subscribe key) v.leaving_below v.apart;
      }

  pub withdraws-Inv :
      (s : System S K) (key : K)
      → Inv s
      → Inv (record s {
        connection = withdraw key s.connection;
        withdrawn =
            s.withdrawn
            + (pending s.connection.router - pending (withdraw key s.connection).router);
      })
  unfolding withdraw pending
  withdraws-Inv s key v =
      let w = withdrawn-Withdrawn key s.connection.router.requests in
      record {
        balanced = omega (arith, w.fewer, v.balanced);
        active = v.active;
        refused_bound = v.refused_bound;
        refused_open = v.refused_open;
        sent = v.sent;
        unique = w.unique v.unique;
        below = w.below _ v.below;
        leaving_below = v.leaving_below;
        apart = Apart-Withdrawn s.leaving _ _ w v.apart;
      }

  pub closes-Inv :
      (s : System S K) (why : CloseReason)
      → Inv s
      → Inv (record s { connection = end_reader hooks why s.connection })
  unfolding end_reader close notify_waiters pending
  closes-Inv s why v = record {
    balanced = v.balanced;
    active = v.active;
    refused_bound = v.refused_bound;
    refused_open = λ no_. absurd (cc);
    sent = v.sent;
    unique = v.unique;
    below = v.below;
    leaving_below = v.leaving_below;
    apart = v.apart;
  }

  pub sends-Inv :
      (s : System S K) (id : ℕ) (sent : Result String (Unit {0}))
      → id < s.connection.next_id
      → Inv s
      → Inv (record s { connection = (finish_send id sent s.connection).0 })
  unfolding finish_send pending
  sends-Inv s id (ok u) issued v = record {
    balanced = v.balanced;
    active = v.active;
    refused_bound = v.refused_bound;
    refused_open = v.refused_open;
    sent = issued;
    unique = v.unique;
    below = v.below;
    leaving_below = v.leaving_below;
    apart = v.apart;
  }
  sends-Inv s id (err why) issued v = v
