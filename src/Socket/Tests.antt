-- ===== src/Socket/Tests.antt =====
-- A stream of core/src/transport/socket.rs with a frame, a ping and a close.
use redsuite.Prelude.{ℕ, ◌≡◌, refl, [], ◌∷◌, Option, none, some, String, ok}
use redsuite.Socket.{server_close, Envelope, Frame, text, close, other, Dispatched, parse, drive}
use redsuite.Socket.Reading.{script, play, drive-play}

abbrev reply_envelope : String → Option Envelope
reply_envelope t =
    some (record { method = none; id = some 1; result = some t; error = none; params = none })

abbrev count_frame : Frame → ℕ → Dispatched ℕ
count_frame frame n = (n, ok tt)

drive-play_example :
    drive reply_envelope count_frame (other ∷ text "7" ∷ close none ∷ []) 0
    ≡ play reply_envelope count_frame
        (script reply_envelope (other ∷ text "7" ∷ close none ∷ [])).frames
        (script reply_envelope (other ∷ text "7" ∷ close none ∷ [])).end
        0
drive-play_example = drive-play reply_envelope count_frame (other ∷ text "7" ∷ close none ∷ []) 0

closed_stream :
    drive reply_envelope count_frame (other ∷ text "7" ∷ close none ∷ text "8" ∷ []) 0
    ≡ (0, server_close none)
unfolding drive parse
closed_stream = refl
