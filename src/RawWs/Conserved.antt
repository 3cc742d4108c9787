-- ===== src/RawWs/Conserved.antt =====
-- core/src/transport/wsraw.rs: what becomes of the notifications that a socket yields, over the calls of its
-- client.
use mathlib.Core.List.{append-nil, append_assoc}
use redsuite.Prelude.{
  ℕ, zero, suc, ◌+◌, ◌≡◌, refl, sym, ap, ◌∙◌, inl, inr, Bool-cases, Bool, true, false, List, [],
  ◌∷◌, ◌++◌, Option, none, some, String, Result, ok, err, eqb, arith, if◌then◌else◌,
}
use redsuite.Socket.{
  CloseReason, Notification, Envelope, Frame, reply, notification, malformed, Message, text, close,
  other, failed, parse,
}
use redsuite.RawWs.{
  Failure, RawNotification, RawWs, Turn, done, more, read_until, after_turn, stop, request_turn,
  next_turn, decoded, found, push_back, try_request, next_notification, next_queued, claim,
  claim_unsent, closed_request, no_reply,
}

module _ {V : Type 0} (envelope : String → Option Envelope) (value : String → Option V) where
  -- The notification of a payload, and the count of payloads that cannot be decoded.
  abbrev pub of_payload : String → ℕ → Option V → List (RawNotification V)
  of_payload method subscription none = []
  of_payload method subscription (some payload) = (method, subscription, payload) ∷ []

  abbrev pub missing : Option V → ℕ
  missing none = 1
  missing (some payload) = 0

  abbrev pub of_frame : Result CloseReason (Option Frame) → List (RawNotification V)
  of_frame (ok (some (notification method params))) =
      of_payload method params.subscription (value params.result)
  of_frame (ok (some (reply id result))) = []
  of_frame (ok (some malformed)) = []
  of_frame (ok none) = []
  of_frame (err why) = []

  abbrev pub lost_frame : Result CloseReason (Option Frame) → ℕ
  lost_frame (ok (some (notification method params))) = missing (value params.result)
  lost_frame (ok (some malformed)) = 1
  lost_frame (ok (some (reply id result))) = 0
  lost_frame (ok none) = 0
  lost_frame (err why) = 0

  -- The notifications that the items of a socket carry, in order, and the count of those lost.
  unfoldable pub carried : List Message → List (RawNotification V)
  carried [] = []
  carried (text t ∷ ms) = of_frame (parse (envelope t)) ++ carried ms
  carried (close frame ∷ ms) = carried ms
  carried (other ∷ ms) = carried ms
  carried (failed error ∷ ms) = carried ms

  unfoldable pub lost : List Message → ℕ
  lost [] = 0
  lost (text t ∷ ms) = lost_frame (parse (envelope t)) + lost ms
  lost (close frame ∷ ms) = lost ms
  lost (other ∷ ms) = lost ms
  lost (failed error ∷ ms) = lost ms

  -- What was given out, what is queued and what is still to be read are together `all`, in order, and the
  -- count of the frames that were malformed or will be is `bad`.
  abbrev pub Accounts : List (RawNotification V) → ℕ → List (RawNotification V) → RawWs V → Type 0
  Accounts all bad given w =
      (given ++ (w.queue ++ carried w.unread) ≡ all) × (w.malformed_frames + lost w.unread ≡ bad)

  module _ {A : Type 0} (out : A → List (RawNotification V)) (I : RawWs V → Type 0) where
    -- What a turn for a frame does to the queue and to the count.
    abbrev Turned : Result CloseReason (Option Frame) → RawWs V → Turn V A → Type 0
    Turned frame w (done a w') =
        (out a ++ w'.queue ≡ w.queue ++ of_frame frame)
        × (w'.malformed_frames ≡ w.malformed_frames + lost_frame frame)
    Turned frame w (more w') =
        I w'
        × (w'.queue ≡ w.queue ++ of_frame frame)
        × (w'.malformed_frames ≡ w.malformed_frames + lost_frame frame)

    abbrev Kept : RawWs V → List Message → A × RawWs V → Type 0
    Kept w ms (a, w') = Accounts (w.queue ++ carried ms) (w.malformed_frames + lost ms) (out a) w'

    after_turn-Kept :
        (t : String) (ms : List Message) (w : RawWs V) (next : RawWs V → A × RawWs V) (u : Turn V A)
        → Turned (parse (envelope t)) w u
        → ((w' : RawWs V) → I w' → Kept w' ms (next w'))
        → Kept w (text t ∷ ms) (after_turn next ms u)
    unfolding after_turn carried lost
    after_turn-Kept t ms w next (done a w') h rest =
        let f = of_frame (parse (envelope t)) in
        let c = carried ms in
        (
          sym (append_assoc (out a) w'.queue c) ∙ ap (λ p. p ++ c) h.0 ∙ append_assoc w.queue f c,
          omega (arith, h.1),
        )
    after_turn-Kept t ms w next (more w') h rest =
        let k = rest w' h.0 in
        let f = of_frame (parse (envelope t)) in
        let c = carried ms in
        (k.0 ∙ ap (λ p. p ++ c) h.1 ∙ append_assoc w.queue f c, omega (arith, h.2, k.1))

    module _ (turn : String → RawWs V → Turn V A) (on_close : CloseReason → A) (late : A)
        (nothing_late : out late ≡ [])
        (nothing_closed : (why : CloseReason) → out (on_close why) ≡ [])
        (turned : (t : String) (w : RawWs V) → I w → Turned (parse (envelope t)) w (turn t w)) where
      stopped : (w : RawWs V) (ms : List Message) (a : A) → out a ≡ [] → Kept w ms (stop ms a w)
      unfolding stop
      stopped w ms a e = (ap (λ given. given ++ (w.queue ++ carried ms)) e, refl)

      -- A loop that reads the socket loses and invents no notification.
      read_until-Kept :
          (n : ℕ) (ms : List Message) (w : RawWs V)
          → I w
          → Kept w ms (read_until turn on_close late n ms w)
      unfolding read_until carried lost
      read_until-Kept zero ms w i = stopped w ms late nothing_late
      read_until-Kept (suc n) [] w i = stopped w [] (on_close _) (nothing_closed _)
      read_until-Kept (suc n) (text t ∷ ms) w i =
          after_turn-Kept t ms w (λ w'. read_until turn on_close late n ms w') (turn t w)
            (turned t w i) (λ w' i'. read_until-Kept n ms w' i')
      read_until-Kept (suc n) (close frame ∷ ms) w i = stopped w ms (on_close _) (nothing_closed _)
      read_until-Kept (suc n) (other ∷ ms) w i = read_until-Kept (suc n) ms w i
      read_until-Kept (suc n) (failed error ∷ ms) w i = stopped w ms (on_close _) (nothing_closed _)

  -- A request gives out no notification.
  abbrev none_given : {A : Type 0} → A → List (RawNotification V)
  none_given a = []

  abbrev Anything : RawWs V → Type 0
  Anything w = Unit

  queued :
      (method : String) (params : Notification) (payload : Option V) (w : RawWs V)
      → (push_back value (decoded value method params payload w)).queue
        ≡ w.queue ++ of_payload method params.subscription payload
  unfolding push_back decoded
  queued method params none w = sym (append-nil w.queue)
  queued method params (some payload) w = refl

  counted :
      (method : String) (params : Notification) (payload : Option V) (w : RawWs V)
      → (push_back value (decoded value method params payload w)).malformed_frames
        ≡ w.malformed_frames + missing payload
  unfolding push_back decoded
  counted method params none w = refl
  counted method params (some payload) w = omega arith

  request-Turned :
      {T : Type 0} (decode : String → Option T) (id : ℕ) (frame : Result CloseReason (Option Frame))
      (w : RawWs V)
      → Turned none_given Anything frame w (request_turn value decode id frame w)
  unfolding request_turn
  request-Turned decode id (err why) w = (sym (append-nil w.queue), omega arith)
  request-Turned decode id (ok none) w = (tt, sym (append-nil w.queue), omega arith)
  request-Turned decode id (ok (some (reply r result))) w = elim (Bool-cases (eqb r id)) [
    | inl ours ↦ rw (ours, if◌then◌else◌) (sym (append-nil w.queue), omega arith)
    | inr other_one ↦ rw (other_one, if◌then◌else◌) (tt, sym (append-nil w.queue), omega arith)
  ]
  request-Turned decode id (ok (some (notification method params))) w = (
    tt,
    queued method params (value params.result) w,
    counted method params (value params.result) w,
  )
  request-Turned decode id (ok (some malformed)) w = (tt, sym (append-nil w.queue), refl)

  -- The client waits for a notification while none is queued.
  abbrev NoneQueued : RawWs V → Type 0
  NoneQueued w = w.queue ≡ []

  abbrev given_by : Result Failure (Option (RawNotification V)) → List (RawNotification V)
  given_by (ok (some n)) = n ∷ []
  given_by (ok none) = []
  given_by (err failure) = []

  found-Turned :
      (method : String) (params : Notification) (payload : Option V) (w : RawWs V)
      → NoneQueued w
      → value params.result ≡ payload
      → Turned given_by NoneQueued
          (ok (some (notification method params)))
          w
          (found value (decoded value method params payload w))
  unfolding found decoded
  found-Turned method params none w idle e = rw e (idle, sym (append-nil w.queue), refl)
  found-Turned method params (some payload) w idle e = rw (e, idle) (refl, omega arith)

  next-Turned :
      (frame : Result CloseReason (Option Frame)) (w : RawWs V)
      → NoneQueued w
      → Turned given_by NoneQueued frame w (next_turn value frame w)
  unfolding next_turn
  next-Turned (err why) w idle = (sym (append-nil w.queue), omega arith)
  next-Turned (ok none) w idle = (idle, sym (append-nil w.queue), omega arith)
  next-Turned (ok (some (reply r (ok raw)))) w idle = (idle, sym (append-nil w.queue), omega arith)
  next-Turned (ok (some (reply r (err error)))) w idle = (sym (append-nil w.queue), omega arith)
  next-Turned (ok (some (notification method params))) w idle =
      found-Turned method params (value params.result) w idle refl
  next-Turned (ok (some malformed)) w idle = (idle, sym (append-nil w.queue), refl)

  -- What a client keeps of the notifications over a call.
  abbrev Keeps : {A : Type 0} → (A → List (RawNotification V)) → RawWs V → A × RawWs V → Type 0
  Keeps out w (a, w') =
      Accounts (w.queue ++ carried w.unread) (w.malformed_frames + lost w.unread) (out a) w'

  try_request-Keeps :
      {T : Type 0} (decode : String → Option T) (can_send : Bool) (within : ℕ)
      (method params : String) (w : RawWs V)
      → Keeps none_given w (try_request envelope value decode can_send within method params w)
  unfolding try_request claim claim_unsent
  try_request-Keeps decode false within method params w = (refl, refl)
  try_request-Keeps decode true within method params w =
      read_until-Kept none_given Anything
        (λ t. request_turn value decode w.next_id (parse (envelope t)))
        (closed_request envelope value) (err no_reply) refl (λ why. refl)
        (λ t w' i. request-Turned decode w.next_id (parse (envelope t)) w') within w.unread
        (claim envelope value method params w) tt

  next_queued-Keeps :
      (within : ℕ) (q : List (RawNotification V)) (w : RawWs V)
      → w.queue ≡ q
      → Keeps given_by w (next_queued envelope value within q w)
  unfolding next_queued
  next_queued-Keeps within [] w e =
      read_until-Kept given_by NoneQueued (λ t. next_turn value (parse (envelope t)))
        (closed_request envelope value) (ok none) refl (λ why. refl)
        (λ t w' i. next-Turned (parse (envelope t)) w' i) within w.unread w e
  next_queued-Keeps within (n ∷ ns) w e = (ap (λ q. q ++ carried w.unread) (sym e), refl)

  module _ {T : Type 0} (decode : String → Option T) where
    -- The calls of a client, each with the number of texts that its deadline leaves time for.
    pub data Call : Type 0 where
      ask : (can_send : Bool) → (within : ℕ) → (method params : String) → Call
      await : (within : ℕ) → Call

    -- The notifications that the calls give out, and the client that they leave.
    unfoldable pub play : List Call → RawWs V → List (RawNotification V) × RawWs V
    unfolding try_request next_notification
    play [] w = ([], w)
    play (ask can_send within method params ∷ calls) w =
        play calls (try_request envelope value decode can_send within method params w).1
    play (await within ∷ calls) w =
        let (result, w') = next_notification envelope value within w in
        let (given, w'') = play calls w' in (given_by result ++ given, w'')

    -- Over any calls of a client, in any order and whether or not they fail or time out, the notifications given out, then those
    -- queued, then those that the socket still carries are the ones queued and carried at first, each
    -- once and in order; and the malformed frames counted and those to be read are as many as at first.
    pub play-Accounts :
        (calls : List Call) (w : RawWs V)
        → Accounts
            (w.queue ++ carried w.unread)
            (w.malformed_frames + lost w.unread)
            (play calls w).0
            (play calls w).1
    unfolding play next_notification
    play-Accounts [] w = (refl, refl)
    play-Accounts (ask can_send within method params ∷ calls) w =
        let w' = (try_request envelope value decode can_send within method params w).1 in
        let once = try_request-Keeps decode can_send within method params w in
        let later = play-Accounts calls w' in (later.0 ∙ once.0, later.1 ∙ once.1)
    play-Accounts (await within ∷ calls) w =
        let (result, w') = next_notification envelope value within w in
        let once = next_queued-Keeps within w.queue w refl in
        let later = play-Accounts calls w' in
        let (given, w'') = play calls w' in
        (
          append_assoc (given_by result) given (w''.queue ++ carried w''.unread)
              ∙ ap (λ rest. given_by result ++ rest) later.0
              ∙ once.0,
          later.1 ∙ once.1,
        )
