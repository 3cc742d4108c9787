-- ===== src/Netfault/Watching/Tests.antt =====
-- core/src/netfault/ws.rs: an account subscription through the relay, with the few JSON values that it takes.
use redsuite.Prelude.{
  ℕ, ◌≡◌, refl, [], ◌∷◌, Option, none, some, String, ◌==◌, string_eq, if◌then◌else◌, eqb,
}
use redsuite.Netfault.{Operation, ws, Stage}
use redsuite.Netfault.Rpc.{Json, id_of, subscription_of, request_of, notification_of}
use redsuite.Netfault.Relay.{WsRelay, ends_with, response_operation, request_decided, text}
use redsuite.Netfault.Watching.{subscription-notified}

data Toy : Type 0 where
  nothing : Toy
  number : ℕ → Toy
  word : String → Toy
  call : (id method account : String) → Toy
  call_params : (account : String) → Toy
  reply : (id : String) → (result : ℕ) → Toy
  event : (subscription : ℕ) → Toy
  event_params : (subscription : ℕ) → Toy

abbrev toy_field : String → Toy → Toy
toy_field k (call id method account) =
    if k == "id"
    then word id
    else if k == "method"
    then word method
    else if k == "params"
    then call_params account
    else nothing
toy_field k (reply id n) =
    if k == "id" then word id else if k == "result" then number n else nothing
toy_field k (event n) =
    if k == "method"
    then word "accountNotification"
    else if k == "params"
    then event_params n
    else nothing
toy_field k (event_params n) = if k == "subscription" then number n else nothing
toy_field k nothing = nothing
toy_field k (number n) = nothing
toy_field k (word w) = nothing
toy_field k (call_params account) = nothing

abbrev toy_item : ℕ → Toy → Toy
toy_item n (call_params account) = if eqb n 0 then word account else nothing
toy_item n _ = nothing

abbrev toy_get : String → Toy → Option Toy
toy_get k (call id method account) = if k == "id" then some (word id) else none
toy_get k (reply id n) = if k == "id" then some (word id) else none
toy_get _ _ = none

abbrev toy_str : Toy → Option String
toy_str (word w) = some w
toy_str _ = none

abbrev toy_u64 : Toy → Option ℕ
toy_u64 (number n) = some n
toy_u64 _ = none

abbrev toy_string : Toy → String
toy_string (word w) = w
toy_string _ = "null"

abbrev toy : Json
toy = record {
  Value = Toy;
  null = nothing;
  field = toy_field;
  item = toy_item;
  get = toy_get;
  as_str = toy_str;
  as_u64 = toy_u64;
  as_bool = λ v. none;
  as_array = λ v. none;
  to_string = toy_string;
  decode_transaction = λ t. none;
}

abbrev subscribing : Toy
subscribing = call "1" "accountSubscribe" "Payer"

abbrev idle : WsRelay toy
idle = record { to_server = []; to_client = []; pending = []; subscriptions = []; tasks = [] }

abbrev operation : Operation
operation = record {
  transport = ws;
  stage = Stage.request;
  method = "accountSubscribe";
  signatures = [];
  accounts = "Payer" ∷ [];
}

abbrev asked : WsRelay toy
asked = record {
  to_server = text "subscribe" ∷ [];
  to_client = [];
  pending = ("1", (operation, none)) ∷ [];
  subscriptions = [];
  tasks = [];
}

operation-subscribing : request_of toy ws subscribing ≡ operation
unfolding request_of
operation-subscribing = refl

subscription-notified_example :
    (response_operation toy (event 9) (response_operation toy (reply "1" 9) asked).0).1
    ≡ notification_of toy (event 9) (some operation)
unfolding ends_with id_of request_decided subscription_of
subscription-notified_example =
    subscription-notified toy operation "subscribe" subscribing (reply "1" 9) (event 9) idle asked
      "1" 9 refl refl refl refl refl refl refl refl
