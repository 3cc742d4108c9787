-- ===== src/Subscription/Tests.antt =====
-- A connection of core/src/transport/subscription.rs with one request, its acknowledgment and a notification.
use redsuite.Prelude.{
  if◌then◌else◌, leb, nat_eq, ℕ, ◌+◌, refl, [], ◌∷◌, Option, none, some, String, ok, get,
}
use redsuite.Socket.{reply}
use redsuite.Subscription.{
  SubscriptionState, Router, ControlFlow, go_on, break_off, dispatch, subscribe,
}
use redsuite.Subscription.Connection.{connect, begin_subscribe}
use redsuite.Subscription.Scope.{System, Reach, start, next, subscribes, opened}
use redsuite.Subscription.Books.{Reach-Books}
use redsuite.Subscription.Moves.{Inv}
use redsuite.Subscription.Acknowledge.{Life, notify_all, until_break, reply-Life}

abbrev counting : SubscriptionState ℕ
counting = record { on_subscribed = λ s count. s; on_malformed = λ s. s; on_close = λ s why. s }

abbrev parse_id : String → Option ℕ
parse_id t = some 70

abbrev add_key : ℕ → ℕ → String → ℕ × ControlFlow
add_key s key payload = (s + key, go_on)

abbrev asked : Router ℕ ℕ
asked = record {
  state = 0;
  requests = (1, subscribe 4) ∷ [];
  subscriptions = [];
  subscribed = 0;
  last_reply = none;
  error = none;
  changed = 0;
}

-- A callback that breaks off once the state has reached eight.
abbrev twice : ℕ → ℕ → String → ℕ × ControlFlow
twice s key payload = if leb 4 s then (s + key, break_off) else (s + key, go_on)

reply-Life_example :
    Life counting parse_id twice asked 1 4 70
      (8, break_off)
      (notify_all counting parse_id twice "slotNotification" 70
        ("{}" ∷ "{}" ∷ "{}" ∷ [])
        (dispatch counting parse_id twice (reply 1 (ok "70")) asked).0)
unfolding get until_break
reply-Life_example =
    reply-Life counting parse_id twice "slotNotification" 1 4 "70" 70 ("{}" ∷ "{}" ∷ "{}" ∷ [])
      asked refl refl

abbrev one_asked : System ℕ ℕ
one_asked = record (opened 0) { connection = (begin_subscribe 4 (connect 0)).0; asked = 1 }

one_asked-Reach : Reach counting parse_id add_key one_asked
one_asked-Reach = next (start 0) (subscribes (opened 0) 4)

Reach-Books_example : Inv one_asked
Reach-Books_example = Reach-Books counting parse_id add_key one_asked-Reach
