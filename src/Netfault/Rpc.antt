-- ===== src/Netfault/Rpc.antt =====
-- core/src/netfault/rpc.rs: what the relays read from a JSON-RPC message. The accessors of the JSON library
-- and the decoder of transactions are parameters. A rejection is kept as its id and message.
use redsuite.Prelude.{
  ℕ, Bool, ◌||◌, List, [], ◌∷◌, ◌++◌, Option, none, some, String, ◌==◌, string_eq, if◌then◌else◌,
}
use redsuite.Netfault.{Transport, ws, Stage, Operation}

-- `value[…]`, `get`, `as_…` and `to_string`; `null` is the value of what is not there.
pub record Json : Type 1 where
  pub Value : Type 0
  pub null : Value
  pub field : String → Value → Value
  pub item : ℕ → Value → Value
  pub get : String → Value → Option Value
  pub as_str : Value → Option String
  pub as_u64 : Value → Option ℕ
  pub as_bool : Value → Option Bool
  pub as_array : Value → Option (List Value)
  pub to_string : Value → String
  -- The signatures and the accounts of a transaction in its text form.
  pub decode_transaction : String → Option (List String × List String)

abbrev pub list_of : {A : Type 0} → Option A → List A
list_of none = []
list_of (some a) = a ∷ []

abbrev pub text_or : Option String → String → String
text_or none default = default
text_or (some t) default = t

module _ (j : Json) where
  open j use {
    Value, null, field, item, get, as_str, as_u64, as_array, to_string, decode_transaction,
  }

  -- A text that is not JSON is taken as the null value.
  abbrev pub or_null : Option Value → Value
  or_null none = null
  or_null (some value) = value

  -- `rpc::id`
  unfoldable pub id_of : Value → Option String
  id_of value = elim (get "id" value) [ none ↦ none | some id ↦ some (to_string id) ]

  -- `rpc::subscription`
  unfoldable pub subscription_of : Value → Option ℕ
  subscription_of value = as_u64 (field "subscription" (field "params" value))

  unfoldable pub method_of : Value → String
  method_of value = text_or (as_str (field "method" value)) "?"

  unfoldable pub strings : List Value → List String
  strings [] = []
  strings (value ∷ values) = list_of (as_str value) ++ strings values

  unfoldable pub array_strings : Option (List Value) → List String
  unfolding strings
  array_strings none = []
  array_strings (some values) = strings values

  unfoldable pub transaction_of : Option String → List String × List String
  transaction_of none = ([], [])
  transaction_of (some t) = elim (decode_transaction t) [ none ↦ ([], []) | some found ↦ found ]

  -- The signatures and the accounts that a method names in its first parameter.
  unfoldable pub named : String → Value → List String × List String
  unfolding array_strings transaction_of
  named method first =
      if method == "getAccountInfo" || method == "accountSubscribe" || method == "programSubscribe"
      then ([], list_of (as_str first))
      else if method == "signatureSubscribe" || method == "getTransaction"
      then (list_of (as_str first), [])
      else if method == "getMultipleAccounts"
      then ([], array_strings (as_array first))
      else if method == "getSignatureStatuses"
      then (array_strings (as_array first), [])
      else if method == "sendTransaction"
      then transaction_of (as_str first)
      else ([], [])

  -- `rpc::request`
  unfoldable pub request_of : Transport → Value → Operation
  unfolding method_of named
  request_of transport value =
      let method = method_of value in
      let (signatures, accounts) = named method (item 0 (field "params" value)) in
      record {
        transport = transport;
        stage = Stage.request;
        method = method;
        signatures = signatures;
        accounts = accounts;
      }

  abbrev pub or_request : Option Operation → Operation
  or_request none = request_of ws null
  or_request (some base) = base

  unfoldable pub pubkey_of : String → Value → List String
  pubkey_of method value =
      if method == "programNotification"
      then list_of (as_str (field "pubkey" (field "value" (field "result" (field "params" value)))))
      else []

  -- `rpc::notification`
  unfoldable pub notification_of : Value → Option Operation → Operation
  unfolding method_of pubkey_of
  notification_of value base =
      let method = method_of value in
      record (or_request base) {
        stage = Stage.notification;
        method = method;
        accounts = (or_request base).accounts ++ pubkey_of method value;
      }

  pub record Rejection : Type 0 where
    pub message : String
    pub id : Value

  -- `rpc::rejection`
  unfoldable pub rejection : Value → String → Rejection
  rejection value message = record { message = message; id = field "id" value }
