-- ===== src/Socket.antt =====
-- core/src/transport/socket.rs: the frames of a websocket connection and the loop that reads them. The
-- stream is the list of the items that it still yields. The JSON decoder is the argument `envelope`,
-- and the payloads are kept as the raw text of their `LazyValue`.
pub mod Reading
mod Tests
use redsuite.Prelude.{ℕ, List, [], ◌∷◌, Option, none, some, String, Result, ok, err}

-- `jsonrpc_core::Error`; `invalid_params` is the one code that the crate tells apart.
pub data ErrorCode : Type 0 where
  invalid_params : ErrorCode
  other_code : ℕ → ErrorCode

pub record RpcError : Type 0 where
  pub code : ErrorCode
  pub message : String

pub data CloseReason : Type 0 where
  server_close : (frame : Option String) → CloseReason
  stream_ended : CloseReason
  transport : (error : String) → CloseReason
  server_error : RpcError → CloseReason
  invalid_reply : CloseReason

pub record Notification : Type 0 where
  pub subscription : ℕ
  pub result : String

pub record Envelope : Type 0 where
  pub method : Option String
  pub id : Option ℕ
  pub result : Option String
  pub error : Option RpcError
  pub params : Option Notification

pub data Frame : Type 0 where
  reply : (id : ℕ) → (result : Result RpcError String) → Frame
  notification : (method : String) → (params : Notification) → Frame
  malformed : Frame

-- What the stream yields; `other` is a ping, a pong or binary data.
pub data Message : Type 0 where
  text : String → Message
  close : (frame : Option String) → Message
  other : Message
  failed : (error : String) → Message

-- The frame of an envelope that carries no error.
unfoldable pub frame_of :
    Option String → Option Notification → Option ℕ → Option String → Option Frame
frame_of (some m) (some p) _ _ = some (notification m p)
frame_of none _ (some id) (some result) = some (reply id (ok result))
frame_of _ _ _ _ = none

unfoldable pub parse_envelope : Option RpcError → Envelope → Result CloseReason (Option Frame)
unfolding frame_of
parse_envelope none e = ok (frame_of e.method e.params e.id e.result)
parse_envelope (some error) e = elim e.id [
  | some id ↦ ok (some (reply id (err error)))
  | none ↦ err (server_error error)
]

-- `parse`, on what the decoder makes of the text.
unfoldable pub parse : Option Envelope → Result CloseReason (Option Frame)
unfolding parse_envelope
parse none = ok (some malformed)
parse (some e) = parse_envelope e.error e

-- `receive`: the next text with the rest of the stream, or why there is none.
unfoldable pub receive : List Message → Result CloseReason (String × List Message)
receive [] = err stream_ended
receive (text t ∷ rest) = ok (t, rest)
receive (close frame ∷ rest) = err (server_close frame)
receive (other ∷ rest) = receive rest
receive (failed error ∷ rest) = err (transport error)

-- What a callback leaves of the state, and whether it goes on.
abbrev pub Dispatched : Type 0 → Type 0
Dispatched S = S × Result CloseReason (Unit {0})

module _ {S : Type 0} (envelope : String → Option Envelope)
    (dispatch : Frame → S → Dispatched S) where
  -- One turn of the loop of `drive`, for the text received.
  unfoldable pub handle : Result CloseReason (Option Frame) → S → Dispatched S
  handle (err why) s = (s, err why)
  handle (ok none) s = (s, ok tt)
  handle (ok (some frame)) s = dispatch frame s

  abbrev pub go_on : (S → S × CloseReason) → Dispatched S → S × CloseReason
  go_on next (s, ok _) = next s
  go_on next (s, err why) = (s, why)

  -- `drive`: the state that the loop leaves, and the reason why it ended.
  unfoldable pub drive : List Message → S → S × CloseReason
  unfolding handle
  drive [] s = (s, stream_ended)
  drive (text t ∷ rest) s = go_on (λ s'. drive rest s') (handle (parse (envelope t)) s)
  drive (close frame ∷ rest) s = (s, server_close frame)
  drive (other ∷ rest) s = drive rest s
  drive (failed error ∷ rest) s = (s, transport error)
