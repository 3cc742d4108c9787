-- ===== src/Netfault/Exchange.antt =====
-- core/src/netfault/http.rs: one exchange of the HTTP relay, between the request read and the response
-- written. The decisions are what the gate comes to about the request and about the response, and the
-- answer of the validator is an argument. `none` closes the connection.
use redsuite.Prelude.{ℕ, Option, none, some, String, Bool, true, false}
use redsuite.Netfault.{Operation, Stage, Decision, release, discard, reject}
use redsuite.Netfault as Netfault
use redsuite.Netfault.Rpc.{Json, Rejection, rejection, request_of, or_null}

-- The answer of `post_json`: a text, a status with its body, or another error.
pub data Answer : Type 0 where
  success : (body : String) → Answer
  status_error : (status : ℕ) → (body : String) → Answer
  other_error : (message : String) → Answer

module _ (j : Json) where
  open j use {Value}

  pub data Body : Type 0 where
    plain : String → Body
    refusal : Rejection j → Body

  unfoldable pub relayed : Answer → ℕ × Body
  relayed (success body) = (200, plain body)
  relayed (status_error status body) = (status, plain body)
  relayed (other_error message) = (502, plain message)

  -- The response past its gate.
  unfoldable pub respond : Decision → Answer → Value → Option (ℕ × Body)
  unfolding relayed rejection
  respond discard answer parsed = none
  respond (reject message) answer parsed = some (200, refusal (rejection j parsed message))
  respond release answer parsed = some (relayed answer)

  -- What an exchange has posted to the validator, and what it responds.
  pub record Exchange : Type 0 where
    pub posted : Option String
    pub response : Option (ℕ × Body)

  -- A request past its gate; `later` is what the gate comes to about the response.
  unfoldable pub exchange_decided :
      Decision → Decision → (String → Answer) → String → Value → Exchange
  unfolding respond rejection
  exchange_decided discard later post body parsed = record { posted = none; response = none }
  exchange_decided (reject message) later post body parsed = record {
    posted = none;
    response = some (200, refusal (rejection j parsed message));
  }
  exchange_decided release later post body parsed = record {
    posted = some body;
    response = respond later (post body) parsed;
  }

  -- One round of the loop of `serve_http`, with the decisions that the gate comes to about operations.
  unfoldable pub exchange :
      (String → Option Value) → (Operation → Decision) → (String → Answer) → String → Exchange
  unfolding exchange_decided request_of
  exchange parse decide post body =
      let parsed = or_null j (parse body) in
      let o = request_of j Netfault.http parsed in
      exchange_decided (decide o) (decide (record o { stage = Stage.response })) post body parsed

  -- Whether the relay reads another request: the response was written and the client keeps on.
  unfoldable pub goes_on : Bool → Bool → Exchange → Bool
  goes_on written true e = elim e.response [ none ↦ false | some r ↦ written ]
  goes_on written false e = false
