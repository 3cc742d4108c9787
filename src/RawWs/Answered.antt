-- ===== src/RawWs/Answered.antt =====
-- core/src/transport/wsraw.rs: the reply to a request.
use redsuite.Prelude.{
  ℕ, zero, suc, ◌<◌, ◌≡◌, refl, sym, subst, true, false, List, [], ◌∷◌, ◌++◌, All, Option, none,
  some, String, Result, ok, err, eqb, eqb_iff, arith, if◌then◌else◌,
}
use redsuite.Socket.{
  RpcError, CloseReason, Envelope, Frame, reply, notification, malformed, Message, text, close,
  other, failed, parse,
}
use redsuite.RawWs.{
  Failure, RawWs, Turn, read_until, after_turn, stop, request_turn, try_request, answer, claim,
  closed_request, no_reply,
}

module _ {V T : Type 0} (envelope : String → Option Envelope) (value : String → Option V)
    (decode : String → Option T) where
  -- A frame that does not end the wait for the reply to a request.
  abbrev pub Passes : ℕ → Result CloseReason (Option Frame) → Type 0
  Passes id (err why) = ⊥
  Passes id (ok none) = Unit
  Passes id (ok (some (reply r result))) = eqb r id ≡ false
  Passes id (ok (some (notification method params))) = Unit
  Passes id (ok (some malformed)) = Unit

  abbrev pub IsPassed : ℕ → Message → Type 0
  IsPassed id (text t) = Passes id (parse (envelope t))
  IsPassed id other = Unit
  IsPassed id (close frame) = ⊥
  IsPassed id (failed error) = ⊥

  -- The number of texts.
  abbrev pub texts : List Message → ℕ
  texts [] = 0
  texts (text t ∷ ms) = suc (texts ms)
  texts (close frame ∷ ms) = texts ms
  texts (other ∷ ms) = texts ms
  texts (failed error ∷ ms) = texts ms

  abbrev Outcome : Type 0
  Outcome = Result Failure (Result RpcError T) × RawWs V

  abbrev turn : ℕ → String → RawWs V → Turn V (Result Failure (Result RpcError T))
  turn id t = request_turn value decode id (parse (envelope t))

  abbrev wait_for : ℕ → ℕ → List Message → RawWs V → Outcome
  wait_for id = read_until (turn id) (closed_request envelope value) (err no_reply)

  -- What the wait comes to.
  abbrev pub Answered : Result RpcError String → List Message → Outcome → Type 0
  Answered result rest o = (o.0 ≡ answer value decode result) × (o.1.unread ≡ rest)

  pass-Answered :
      (id : ℕ) (frame : Result CloseReason (Option Frame)) (ms : List Message) (w : RawWs V)
      (result : Result RpcError String) (rest : List Message) (next : RawWs V → Outcome)
      → Passes id frame
      → ((w' : RawWs V) → Answered result rest (next w'))
      → Answered result rest (after_turn next ms (request_turn value decode id frame w))
  unfolding request_turn after_turn
  pass-Answered id (err why) ms w result rest next passes h = absurd passes
  pass-Answered id (ok none) ms w result rest next passes h = h w
  pass-Answered id (ok (some (reply r res))) ms w result rest next passes h =
      rw (passes, if◌then◌else◌) (h w)
  pass-Answered id (ok (some (notification method params))) ms w result rest next passes h = h _
  pass-Answered id (ok (some malformed)) ms w result rest next passes h = h _

  wait-Answered :
      (id within : ℕ) (before : List Message) (t : String) (result : Result RpcError String)
      (rest : List Message) (w : RawWs V)
      → All (IsPassed id) before
      → texts before < within
      → parse (envelope t) ≡ ok (some (reply id result))
      → Answered result rest (wait_for id within (before ++ text t ∷ rest) w)
  unfolding read_until request_turn after_turn stop
  wait-Answered id zero before t result rest w quiet room e = absurd (omega arith)
  wait-Answered id (suc n) [] t result rest w quiet room e =
      rw (e, (eqb_iff id id).1 refl, if◌then◌else◌) (refl, refl)
  wait-Answered id (suc n) (text s ∷ before) t result rest w quiet room e =
      pass-Answered id (parse (envelope s)) (before ++ text t ∷ rest) w result rest
        (λ w'. wait_for id n (before ++ text t ∷ rest) w') quiet.0
        (λ w'. wait-Answered id n before t result rest w' quiet.1 (omega arith) e)
  wait-Answered id (suc n) (other ∷ before) t result rest w quiet room e =
      wait-Answered id (suc n) before t result rest w quiet.1 room e
  wait-Answered id (suc n) (close frame ∷ before) t result rest w quiet room e = absurd quiet.0
  wait-Answered id (suc n) (failed error ∷ before) t result rest w quiet room e = absurd quiet.0

  -- A request that is sent and whose reply the socket yields before its deadline, with no close, failure or
  -- uncalled-for error before it, is answered by that reply, whatever notifications, other replies and
  -- malformed frames come first; and the socket is read up to the reply and no further.
  pub try_request-Answered :
      (within : ℕ) (method params : String) (before : List Message) (t : String)
      (result : Result RpcError String) (rest : List Message) (w : RawWs V)
      → w.unread ≡ before ++ text t ∷ rest
      → All (IsPassed w.next_id) before
      → texts before < within
      → parse (envelope t) ≡ ok (some (reply w.next_id result))
      → Answered result rest (try_request envelope value decode true within method params w)
  unfolding try_request
  try_request-Answered within method params before t result rest w unread quiet room e =
      subst
        (λ ms.
          Answered result rest
            (wait_for w.next_id within ms (claim envelope value method params w)))
        (sym unread)
        (wait-Answered w.next_id within before t result rest (claim envelope value method params w)
          quiet room e)
