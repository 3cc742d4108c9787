-- ===== src/Events/Delivery.antt =====
-- core/src/transport/events.rs with core/src/transport/subscription.rs and core/src/transport/socket.rs:
-- the way of a notification from the stream to the queue of its key.
use mathlib.Core.List.{append-nil, append_assoc}
use redsuite.Prelude.{
  ℕ, ◌≡◌, refl, ap, sym, ◌∙◌, subst, Bool, true, false, List, [], ◌∷◌, ◌++◌, map, Option, none,
  some, String, eqb, if◌then◌else◌, get,
}
use redsuite.Socket.{CloseReason, Envelope, Frame, notification, Notification, Message, drive}
use redsuite.Socket.Reading.{script, play, drive-play}
use redsuite.Subscription.{Topic, go_on, dispatch}
use redsuite.Events.{buffer_hooks, flow, observe}
use redsuite.Events.Routes.{Wire, Ready, note-Ready}

abbrev pub to_frame : String × Notification → Frame
to_frame (method, params) = notification method params

module _ {Value : Type 0} (parse_value : String → Option Value) where
  abbrev pub Legible : List (String × Notification) → Type 0
  Legible [] = Unit
  Legible ((method, params) ∷ notes) =
      ((v : Value) × (parse_value params.result ≡ some v)) × Legible notes

  abbrev heard : Bool → Option Value → List Value → List Value
  heard true (some v) rest = v ∷ rest
  heard true none rest = rest
  heard false o rest = rest

  -- The values that the notifications carry for a subscription, in order.
  pub values_for : ℕ → List (String × Notification) → List Value
  values_for subscription [] = []
  values_for subscription ((method, params) ∷ notes) =
      heard (eqb params.subscription subscription) (parse_value params.result)
        (values_for subscription notes)

module _ {Value : Type 0} (parse_id : String → Option ℕ) (parse_value : String → Option Value) where
  heard-append :
      (mine : Bool) (v : Value) (o : Option Value) (q rest : List Value)
      → o ≡ some v
      → (q ++ (if mine then v ∷ [] else [])) ++ rest ≡ q ++ heard parse_value mine o rest
  heard-append true v o q rest e =
      append_assoc q (v ∷ []) rest ∙ ap (λ p. q ++ heard parse_value true p rest) (sym e)
  heard-append false v o q rest e = append_assoc q [] rest

  dispatch_all-Ready :
      (envelope : String → Option Envelope) (notes : List (String × Notification))
      (end : CloseReason) (subscription key : ℕ) (topic : Topic) (q : List Value)
      (r : Wire parse_value)
      → flow topic ≡ go_on
      → Legible parse_value notes
      → Ready parse_value subscription key topic q r
      → Ready parse_value subscription key topic
          (q ++ values_for parse_value subscription notes)
          (play envelope
            (dispatch buffer_hooks parse_id (observe parse_value))
            (map to_frame notes)
            end
            r).0
  unfolding play dispatch values_for
  dispatch_all-Ready envelope [] end subscription key topic q r goes readable h =
      rw (append-nil q) h
  dispatch_all-Ready envelope ((method, params) ∷ notes) end subscription key topic q r goes
        ((v, read), readable) h =
      subst
        (λ all.
          Ready parse_value subscription key topic all
            (play envelope (dispatch buffer_hooks parse_id (observe parse_value))
              (map to_frame ((method, params) ∷ notes)) end r).0)
        (heard-append (eqb params.subscription subscription) v (parse_value params.result) q
          (values_for parse_value subscription notes) read)
        (dispatch_all-Ready envelope notes end subscription key topic _ _ goes readable
          (note-Ready parse_id parse_value subscription key topic q v params r goes read h))

  play-end :
      (envelope : String → Option Envelope) (notes : List (String × Notification))
      (end : CloseReason) (r : Wire parse_value)
      → (play envelope
          (dispatch buffer_hooks parse_id (observe parse_value))
          (map to_frame notes)
          end
          r).1
        ≡ end
  unfolding play dispatch
  play-end envelope [] end r = refl
  play-end envelope ((method, params) ∷ notes) end r = play-end envelope notes end _

  -- A stream that carries only readable notifications, read by a connection on which one subscription
  -- alone is routed to a key, for a topic that is not one-shot: the loop ends with the stream, and the
  -- queue of the key has then grown by the values that the stream carries for this subscription, each
  -- once and in order.
  pub drive-Delivers :
      (envelope : String → Option Envelope) (ms : List Message)
      (notes : List (String × Notification)) (subscription key : ℕ) (topic : Topic) (q : List Value)
      (r : Wire parse_value)
      → flow topic ≡ go_on
      → (script envelope ms).frames ≡ map to_frame notes
      → Legible parse_value notes
      → Ready parse_value subscription key topic q r
      → ((drive envelope (dispatch buffer_hooks parse_id (observe parse_value)) ms r).1
          ≡ (script envelope ms).end)
        × (get key
              (drive envelope
                (dispatch buffer_hooks parse_id (observe parse_value))
                ms
                r).0.state.by_key
            ≡ some (q ++ values_for parse_value subscription notes))
  drive-Delivers envelope ms notes subscription key topic q r goes carries readable h =
      let after = λ (d : Wire parse_value × CloseReason).
        (d.1 ≡ (script envelope ms).end)
        × (get key d.0.state.by_key ≡ some (q ++ values_for parse_value subscription notes)) in
      subst after
        (sym (drive-play envelope (dispatch buffer_hooks parse_id (observe parse_value)) ms r))
        (subst
          (λ frames. after (
            play envelope (dispatch buffer_hooks parse_id (observe parse_value)) frames
              (script envelope ms).end r))
          (sym carries)
          (
            play-end envelope notes (script envelope ms).end r,
            (dispatch_all-Ready envelope notes (script envelope ms).end subscription key topic q r
                goes readable h).queue,
          ))
