-- ===== src/Events/Tests.antt =====
-- Buffers of core/src/transport/events.rs whose payloads are their own values.
use redsuite.Prelude.{
  ℕ, ◌≡◌, refl, List, [], ◌∷◌, ◌++◌, Option, none, some, String, ◌==◌, string_eq, get, arith,
  if◌then◌else◌,
}
use redsuite.Socket.{Envelope, text, parse, drive}
use redsuite.Socket.Reading.{script}
use redsuite.Subscription.{Topic, slot, Router, dispatch}
use redsuite.Events.{
  EventBuffer, Key, buffer_hooks, observe, pop, pop_front, register, forget, flow, first_match,
}
use redsuite.Events.Queue.{
  Use, notifies, takes, registers, forgets, run, notified, InOrder, run-InOrder,
}
use redsuite.Events.Cursor.{poll, concat, poll-first_match}
use redsuite.Events.Routes.{Ready}
use redsuite.Events.Delivery.{values_for, drive-Delivers}

abbrev whole : String → Option String
whole t = some t

abbrev registered : EventBuffer String
registered = record { last_key = 2; by_key = (2, []) ∷ (1, []) ∷ []; malformed = 0 }

-- The payload "bad" cannot be read.
abbrev partial : String → Option String
partial t = if t == "bad" then none else some t

abbrev uses : List Use
uses =
    notifies 1 slot "a"
    ∷ notifies 2 slot "x"
    ∷ takes 1
    ∷ registers
    ∷ notifies 1 slot "b"
    ∷ forgets 2
    ∷ notifies 2 slot "bad"
    ∷ takes 1
    ∷ []

run-InOrder_example :
    InOrder partial 1 ([] ++ notified partial 1 uses) (run partial uses registered)
unfolding get
run-InOrder_example =
    run-InOrder partial 1 uses registered [] ((λ same. absurd (omega (arith, same))), tt)
      (omega arith) refl

-- Once a payload could not be read, nothing is taken: "b" stays in its queue.
only_first_taken : (run partial uses registered).1 ≡ (1, "a") ∷ []
unfolding run observe pop pop_front register forget
only_first_taken = refl

poll-first_match_example :
    poll whole (λ t. t == "b") (("a" ∷ []) ∷ ("b" ∷ "c" ∷ []) ∷ []) [] 0
    ≡ first_match whole (λ t. t == "b") (concat (("a" ∷ []) ∷ ("b" ∷ "c" ∷ []) ∷ []))
poll-first_match_example =
    poll-first_match whole (λ t. t == "b") (("a" ∷ []) ∷ ("b" ∷ "c" ∷ []) ∷ [])

abbrev slot_envelope : String → Option Envelope
slot_envelope t = some (record {
  method = some "slotNotification";
  id = none;
  result = none;
  error = none;
  params = some (record { subscription = 70; result = t });
})

abbrev parse_id : String → Option ℕ
parse_id t = none

abbrev wired : Router (EventBuffer String) Key
wired = record {
  state = registered;
  requests = [];
  subscriptions = (70, (1, slot)) ∷ [];
  subscribed = 1;
  last_reply = some 1;
  error = none;
  changed = 1;
}

wired-alone : (j : ℕ) (t : Topic) → get j wired.subscriptions ≡ some (1, t) → j ≡ 70
unfolding get
wired-alone j t e = ground arith

wired-Ready : Ready whole 70 1 slot [] wired
unfolding get
wired-Ready = record { routed = refl; alone = wired-alone; queue = refl }

drive-Delivers_example :
    ((drive slot_envelope
        (dispatch buffer_hooks parse_id (observe whole))
        (text "a" ∷ text "b" ∷ [])
        wired).1
      ≡ (script slot_envelope (text "a" ∷ text "b" ∷ [])).end)
    × (get 1
          (drive slot_envelope
            (dispatch buffer_hooks parse_id (observe whole))
            (text "a" ∷ text "b" ∷ [])
            wired).0.state.by_key
        ≡ some (
            []
            ++ values_for whole 70 (
                ("slotNotification", record { subscription = 70; result = "a" })
                ∷ ("slotNotification", record { subscription = 70; result = "b" })
                ∷ [])))
unfolding script flow parse
drive-Delivers_example =
    drive-Delivers parse_id whole slot_envelope (text "a" ∷ text "b" ∷ [])
      (("slotNotification", record { subscription = 70; result = "a" })
        ∷ ("slotNotification", record { subscription = 70; result = "b" })
        ∷ [])
      70 1 slot [] wired refl refl (("a", refl), (("b", refl), tt)) wired-Ready
