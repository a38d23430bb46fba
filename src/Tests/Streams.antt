-- ===== src/Tests/Streams.antt =====
-- The parser's theorems on short streams.
use cpp_remote_screen_captur.Base.{◌≡◌, refl, List, [], ◌∷◌, ◌++◌, arith}
use cpp_remote_screen_captur.Base.Bytes.{codes}
use cpp_remote_screen_captur.Session.State.{Session, open_session, eintr, eagain, too_large}
use cpp_remote_screen_captur.Session.Socket.{Recv, bytes, failed}
use cpp_remote_screen_captur.Session.Parser.{parse_message, parsed, running}
use cpp_remote_screen_captur.Session.Framing.{Frame, encode_all, hold, load, enqueue}
use cpp_remote_screen_captur.Session.Framing.Stream.{parse-oversized, parse-empty_frame}
use cpp_remote_screen_captur.Session.Chunks.{feed, feed-frames}
use cpp_remote_screen_captur.Session.Halting.{parse-halts, Decided}
use cpp_remote_screen_captur.Session.Keeps.{parse_message-ParsedOk, ParsedOk}

abbrev new_session : Session
new_session = open_session 5 (codes "10.0.0.7") (codes "40000")

abbrev image : Frame
image = record { kind = b'I'; payload = 7 ∷ 8 ∷ [] }

-- The frame `image`, behind its first byte, in three pieces over two events, and one byte more.
abbrev pieces : List (List Recv)
pieces =
    (bytes (0 ∷ 0 ∷ []) ∷ failed eagain ∷ [])
    ∷ (bytes (0 ∷ 2 ∷ 7 ∷ []) ∷ failed eintr ∷ bytes (8 ∷ b'A' ∷ []) ∷ [])
    ∷ []

feed-frames_example :
    feed (hold new_session (b'I' ∷ [])) pieces
    ≡ parsed (hold (enqueue new_session (image ∷ [])) (b'A' ∷ []))
feed-frames_example =
    feed-frames new_session pieces (image ∷ []) (b'I' ∷ []) (b'A' ∷ []) (tt, (tt, tt))
      ((omega arith, omega arith), tt) tt tt refl

parse-oversized_example :
    parse_message 2 (load new_session (encode_all (image ∷ []) ++ (b'I' ∷ 1 ∷ 0 ∷ 0 ∷ 0 ∷ 9 ∷ [])))
    ≡ parsed (record (load (enqueue new_session (image ∷ [])) (9 ∷ [])) {
      log = too_large 16777216 ∷ [];
    })
parse-oversized_example =
    parse-oversized new_session (image ∷ []) 2 ((omega arith, omega arith), tt) (omega arith) b'I' 1
      0 0 0 (9 ∷ []) (omega arith)

parse-empty_frame_example :
    (s : Session) × (parse_message 100
        (load new_session (encode_all (image ∷ []) ++ (b'I' ∷ 0 ∷ 0 ∷ 0 ∷ 0 ∷ [])))
      ≡ running s)
parse-empty_frame_example =
    parse-empty_frame (image ∷ []) 100 new_session b'I' 0 0 0 0 [] ((omega arith, omega arith), tt)
      (omega arith)

parse-halts_example : Decided new_session (b'I' ∷ 0 ∷ 0 ∷ 0 ∷ 1 ∷ 7 ∷ b'I' ∷ 0 ∷ [])
parse-halts_example =
    parse-halts new_session (b'I' ∷ 0 ∷ 0 ∷ 0 ∷ 1 ∷ 7 ∷ b'I' ∷ 0 ∷ []) (omega arith)

parse_message-ParsedOk_example :
    ParsedOk
      (load new_session (b'I' ∷ 0 ∷ 0 ∷ 0 ∷ 1 ∷ 7 ∷ []))
      (parse_message 9 (load new_session (b'I' ∷ 0 ∷ 0 ∷ 0 ∷ 1 ∷ 7 ∷ [])))
parse_message-ParsedOk_example =
    parse_message-ParsedOk 9 (load new_session (b'I' ∷ 0 ∷ 0 ∷ 0 ∷ 1 ∷ 7 ∷ [])) tt
