-- ===== src/RawWs/Topics.antt =====
-- core/src/transport/wsraw.rs: the client's methods for each topic. The parameters of a subscription are
-- written by core/src/transport/subscription.rs with the JSON encoder, and those of its end by `only`.
use redsuite.Prelude.{ℕ, Bool, Option, String, Result}
use redsuite.Socket.{RpcError, Envelope}
use redsuite.Subscription.{
  account, failure, logs, program, signature, slot, subscribe_method, unsubscribe_method,
}
use redsuite.RawWs.{Failure, RawWs, try_request, request, subscribe, unsubscribe}

-- The writers of parameters.
pub record Params (Key : Type 0) : Type 0 where
  pub account_params : Key → String
  pub logs_all : String
  pub logs_mentions : Key → String
  pub program_params : Key → String
  pub signature_params : Key → String
  pub no_params : String
  pub only : ℕ → String

module _ {V Key : Type 0} (envelope : String → Option Envelope) (value : String → Option V)
    (number : String → Option ℕ) (boolean : String → Option Bool) (written : Params Key)
    (can_send : Bool) (within : ℕ) where
  open written use {
    account_params, logs_all, logs_mentions, program_params, signature_params, no_params, only,
  }

  abbrev pub Call : Type 0 → Type 0
  Call A = RawWs V → Result Failure A × RawWs V

  unfoldable pub account_subscribe : Key → Call ℕ
  unfolding subscribe
  account_subscribe key =
      subscribe envelope value number can_send within account (account_params key)

  unfoldable pub try_account_subscribe : Key → Call (Result RpcError ℕ)
  unfolding try_request subscribe_method
  try_account_subscribe key =
      try_request envelope value number can_send within (subscribe_method account)
        (account_params key)

  unfoldable pub account_unsubscribe : ℕ → Call Bool
  unfolding unsubscribe
  account_unsubscribe = unsubscribe envelope value boolean only can_send within account

  unfoldable pub try_account_unsubscribe : ℕ → Call (Result RpcError Bool)
  unfolding try_request unsubscribe_method
  try_account_unsubscribe subscription =
      try_request envelope value boolean can_send within (unsubscribe_method account)
        (only subscription)

  unfoldable pub try_logs_subscribe : String → Call (Result RpcError ℕ)
  unfolding try_request subscribe_method
  try_logs_subscribe = try_request envelope value number can_send within (subscribe_method logs)

  unfoldable pub logs_subscribe_all : Call ℕ
  unfolding request subscribe_method
  logs_subscribe_all =
      request envelope value number can_send within (subscribe_method logs) logs_all

  unfoldable pub logs_subscribe_mentions : Key → Call ℕ
  unfolding request subscribe_method
  logs_subscribe_mentions key =
      request envelope value number can_send within (subscribe_method logs) (logs_mentions key)

  unfoldable pub logs_unsubscribe : ℕ → Call Bool
  unfolding unsubscribe
  logs_unsubscribe = unsubscribe envelope value boolean only can_send within logs

  unfoldable pub program_subscribe : Key → Call ℕ
  unfolding subscribe
  program_subscribe key =
      subscribe envelope value number can_send within program (program_params key)

  unfoldable pub program_unsubscribe : ℕ → Call Bool
  unfolding unsubscribe
  program_unsubscribe = unsubscribe envelope value boolean only can_send within program

  unfoldable pub slot_subscribe : Call ℕ
  unfolding subscribe
  slot_subscribe = subscribe envelope value number can_send within slot no_params

  unfoldable pub slot_unsubscribe : ℕ → Call Bool
  unfolding unsubscribe
  slot_unsubscribe = unsubscribe envelope value boolean only can_send within slot

  unfoldable pub transaction_failure_subscribe : Call ℕ
  unfolding subscribe
  transaction_failure_subscribe = subscribe envelope value number can_send within failure no_params

  unfoldable pub signature_subscribe : Key → Call ℕ
  unfolding subscribe
  signature_subscribe key =
      subscribe envelope value number can_send within signature (signature_params key)

  unfoldable pub signature_unsubscribe : ℕ → Call Bool
  unfolding unsubscribe
  signature_unsubscribe = unsubscribe envelope value boolean only can_send within signature
