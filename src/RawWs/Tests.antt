-- ===== src/RawWs/Tests.antt =====
-- core/src/transport/wsraw.rs: a client that asks while a notification comes, and then waits for it.
use redsuite.Prelude.{
  refl, arith, true, List, [], ◌∷◌, Option, none, some, String, ok, ◌==◌, string_eq, if◌then◌else◌,
}
use redsuite.Socket.{Envelope, Message, text, other, parse}
use redsuite.RawWs.{try_request, connect}
use redsuite.RawWs.Answered.{Answered, try_request-Answered}
use redsuite.RawWs.Conserved.{Accounts, carried, lost, ask, await, play, play-Accounts}

-- "reply" is the reply to the first request, and any other text a slot notification.
abbrev envelope : String → Option Envelope
envelope t =
    if t == "reply"
    then some
        (record { method = none; id = some 1; result = some "4"; error = none; params = none })
    else some (record {
      method = some "slotNotification";
      id = none;
      result = none;
      error = none;
      params = some (record { subscription = 4; result = t });
    })

abbrev raw : String → Option String
raw t = some t

abbrev socket : List Message
socket = text "10" ∷ other ∷ text "reply" ∷ text "11" ∷ []

try_request-Answered_example :
    Answered envelope raw raw
      (ok "4")
      (text "11" ∷ [])
      (try_request envelope raw raw true 5 "slotSubscribe" "[]" (connect socket))
unfolding connect parse
try_request-Answered_example =
    try_request-Answered envelope raw raw 5 "slotSubscribe" "[]" (text "10" ∷ other ∷ []) "reply"
      (ok "4") (text "11" ∷ []) (connect socket) refl (omega arith) (omega arith) refl

play-Accounts_example :
    Accounts envelope raw
      (("slotNotification", 4, "10") ∷ ("slotNotification", 4, "11") ∷ [])
      0
      (play envelope raw raw (ask true 5 "slotSubscribe" "[]" ∷ await 1 ∷ []) (connect socket)).0
      (play envelope raw raw (ask true 5 "slotSubscribe" "[]" ∷ await 1 ∷ []) (connect socket)).1
unfolding connect carried lost parse
play-Accounts_example =
    play-Accounts envelope raw raw (ask true 5 "slotSubscribe" "[]" ∷ await 1 ∷ []) (connect socket)
