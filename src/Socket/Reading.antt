-- ===== src/Socket/Reading.antt =====
-- core/src/transport/socket.rs: the loop that reads a stream, against its steps taken one at a time.
use redsuite.Prelude.{◌≡◌, refl, List, [], ◌∷◌, Option, none, some, String, Result, ok, err}
use redsuite.Socket.{
  CloseReason, server_close, stream_ended, transport, Envelope, Frame, Message, text, close, other,
  failed, parse, receive, Dispatched, handle, go_on, drive,
}

-- The frames that a stream carries, and why it ends after them.
pub record Script : Type 0 where
  pub frames : List Frame
  pub end : CloseReason

abbrev before : Result CloseReason (Option Frame) → Script → Script
before (err why) s = record { frames = []; end = why }
before (ok none) s = s
before (ok (some frame)) s = record s { frames = frame ∷ s.frames }

unfoldable pub script : (String → Option Envelope) → List Message → Script
unfolding parse
script envelope [] = record { frames = []; end = stream_ended }
script envelope (text t ∷ rest) = before (parse (envelope t)) (script envelope rest)
script envelope (close frame ∷ rest) = record { frames = []; end = server_close frame }
script envelope (other ∷ rest) = script envelope rest
script envelope (failed error ∷ rest) = record { frames = []; end = transport error }

module _ {S : Type 0} (envelope : String → Option Envelope)
    (dispatch : Frame → S → Dispatched S) where
  -- The frames dispatched in turn, up to the first that is refused.
  unfoldable pub play : List Frame → CloseReason → S → S × CloseReason
  play [] end s = (s, end)
  play (frame ∷ frames) end s =
      go_on envelope dispatch (λ s'. play frames end s') (dispatch frame s)

  go_on-ap :
      (f g : S → S × CloseReason) (d : Dispatched S)
      → ((s : S) → f s ≡ g s)
      → go_on envelope dispatch f d ≡ go_on envelope dispatch g d
  go_on-ap f g (s, ok u) h = h s
  go_on-ap f g (s, err why) h = refl

  handle-before :
      (r : Result CloseReason (Option Frame)) (next : S → S × CloseReason) (rest : Script) (s : S)
      → ((t : S) → next t ≡ play rest.frames rest.end t)
      → go_on envelope dispatch next (handle envelope dispatch r s)
        ≡ play (before r rest).frames (before r rest).end s
  unfolding handle play
  handle-before (err why) next rest s h = refl
  handle-before (ok none) next rest s h = h s
  handle-before (ok (some frame)) next rest s h =
      go_on-ap next (λ t. play rest.frames rest.end t) (dispatch frame s) h

  -- The loop dispatches the frames of the stream in order, up to the first that is refused. It ends
  -- with the reason of that refusal, and without one with the reason why the stream ends.
  pub drive-play :
      (ms : List Message) (s : S)
      → drive envelope dispatch ms s ≡ play (script envelope ms).frames (script envelope ms).end s
  unfolding drive script play
  drive-play [] s = refl
  drive-play (text t ∷ rest) s =
      handle-before (parse (envelope t)) _ (script envelope rest) s (λ s'. drive-play rest s')
  drive-play (close frame ∷ rest) s = refl
  drive-play (other ∷ rest) s = drive-play rest s
  drive-play (failed error ∷ rest) s = refl

  abbrev turn : Result CloseReason (String × List Message) → S → S × CloseReason
  turn (err why) s = (s, why)
  turn (ok (t, rest)) s =
      go_on envelope dispatch (λ s'. drive envelope dispatch rest s')
        (handle envelope dispatch (parse (envelope t)) s)

  -- The loop is one `receive`, with the text handled before the loop goes on with the rest.
  pub drive-receive :
      (ms : List Message) (s : S) → drive envelope dispatch ms s ≡ turn (receive ms) s
  unfolding drive receive
  drive-receive [] s = refl
  drive-receive (text t ∷ rest) s = refl
  drive-receive (close frame ∷ rest) s = refl
  drive-receive (other ∷ rest) s = drive-receive rest s
  drive-receive (failed error ∷ rest) s = refl
