-- ===== src/Session/Chunks.antt =====
-- session.cc: `TryRecv` and `ParseMessage` over many events.
use mathlib.Core.List.{map-append}
use cpp_remote_screen_captur.Base.{
  ℕ, suc, ◌+◌, ◌*◌, ◌≤◌, ◌<◌, ◌≡◌, sym, ap, subst, ◌∙◌, List, [], ◌∷◌, ◌++◌, map, length, arith,
  All, append_assoc, append-nil, length-append, Bool, true, false, All-split,
}
use cpp_remote_screen_captur.Base.Bytes.{of_be32-be32}
use cpp_remote_screen_captur.Session.State.{
  Session, Message, eagain, ewouldblock, eintr, epipe, other,
}
use cpp_remote_screen_captur.Session.Parser.{Parsed, parsed, running, threw, parse}
use cpp_remote_screen_captur.Session.Socket.{Recv, bytes, failed, try_recv}
use cpp_remote_screen_captur.Session.Framing.{
  IsPartial, IsGood, Frame, encode, encode_all, hold, enqueue, message_of,
}
use cpp_remote_screen_captur.Session.Framing.Rounds.{round-hold}
use cpp_remote_screen_captur.Session.Framing.Stream.{parse-frames, parse-round_eq}
use cpp_remote_screen_captur.Session.Framing.Cuts.{cut}

-- The answers of a connection that stays open: bytes, interruptions, and then EAGAIN.
abbrev pub IsOpen : List Recv → Type 0
IsOpen [] = Unit {0}
IsOpen (bytes [] ∷ answers) = ⊥
IsOpen (bytes (b ∷ bs) ∷ answers) = IsOpen answers
IsOpen (failed eagain ∷ answers) = Unit {0}
IsOpen (failed ewouldblock ∷ answers) = Unit {0}
IsOpen (failed eintr ∷ answers) = IsOpen answers
IsOpen (failed epipe ∷ answers) = ⊥
IsOpen (failed (other e) ∷ answers) = ⊥

-- The bytes received before EAGAIN.
abbrev pub received : List Recv → List ℕ
received [] = []
received (bytes [] ∷ answers) = []
received (bytes (b ∷ bs) ∷ answers) = (b ∷ bs) ++ received answers
received (failed eagain ∷ answers) = []
received (failed ewouldblock ∷ answers) = []
received (failed eintr ∷ answers) = received answers
received (failed epipe ∷ answers) = []
received (failed (other e) ∷ answers) = []

-- On a connection that stays open `TryRecv` succeeds, and appends to the request exactly the
-- bytes received before EAGAIN, through any interruptions.
pub try_recv_open :
    (answers : List Recv) (s : Session)
    → IsOpen answers
    → try_recv answers s ≡ (true, record s { request = s.request ++ received answers })
unfolding try_recv
try_recv_open [] s h = rw append-nil
try_recv_open (bytes [] ∷ answers) s h = absurd h
try_recv_open (bytes (b ∷ bs) ∷ answers) s h =
    try_recv_open answers (record s { request = s.request ++ b ∷ bs }) h ∙ rw append_assoc
try_recv_open (failed eagain ∷ answers) s h = rw append-nil
try_recv_open (failed ewouldblock ∷ answers) s h = rw append-nil
try_recv_open (failed eintr ∷ answers) s h = try_recv_open answers s h
try_recv_open (failed epipe ∷ answers) s h = absurd h
try_recv_open (failed (other e) ∷ answers) s h = absurd h

abbrev after_parse : (Session → Parsed) → Parsed → Parsed
after_parse next (parsed s) = next s
after_parse next (running s) = running s
after_parse next (threw e) = threw e

abbrev after_recv : (Session → Parsed) → Bool × Session → Parsed
after_recv next (true, s) = after_parse next (parse s)
after_recv next (false, s) = parsed s

-- What a session's events do to its buffer and its queue before any message is handled: each one
-- calls `TryRecv` and `ParseMessage`, until the connection fails. The whole event, with the message
-- that it takes off the queue, is `handle_event` of Server/Handlers.
unfoldable pub feed : Session → List (List Recv) → Parsed
feed s [] = parsed s
feed s (answers ∷ events) = after_recv (λ t. feed t events) (try_recv answers s)

abbrev pub received_all : List (List Recv) → List ℕ
received_all [] = []
received_all (answers ∷ events) = received answers ++ received_all events

length-good : (fs : List Frame) → All IsGood fs → 6 * length fs ≤ length (encode_all fs)
length-good [] g = omega arith
length-good (f ∷ fs) g =
    omega (arith, g.0.0, length-good fs g.1, length-append f.payload (encode_all fs))

length-hold : (s : Session) (bs : List ℕ) → length bs ≤ length (hold s bs).request + 5
length-hold s [] = omega arith
length-hold s (t ∷ []) = omega arith
length-hold s (t ∷ a ∷ []) = omega arith
length-hold s (t ∷ a ∷ b ∷ []) = omega arith
length-hold s (t ∷ a ∷ b ∷ c ∷ []) = omega arith
length-hold s (t ∷ a ∷ b ∷ c ∷ d ∷ r) = omega arith

pub not-IsPartial-encode : (f : Frame) (rest : List ℕ) → IsGood f → ¬ IsPartial (encode f ++ rest)
not-IsPartial-encode f rest g h =
    omega (arith, of_be32-be32 (length f.payload), length-append f.payload rest)

pub parse-hold :
    (s : Session) (held more : List ℕ) (fs : List Frame) (tail : List ℕ)
    → All IsGood fs
    → IsPartial tail
    → held ++ more ≡ encode_all fs ++ tail
    → parse (record (hold s held) { request = (hold s held).request ++ more })
      ≡ parsed (hold (enqueue s fs) tail)
parse-hold s held more fs tail g p e =
    let n : ℕ = length ((hold s held).request ++ more) in
    let enough : length fs < suc n = omega (
      arith,
      length-good fs g,
      length-append (encode_all fs) tail,
      length-append held more,
      length-append (hold s held).request more,
      length-hold s held,
      ap length e,
    ) in
    parse-round_eq n _ _ (round-hold s held more) ∙ rw e (parse-frames s fs (suc n) g enough tail p)

enqueue-append :
    (s : Session) (fs gs : List Frame) → enqueue (enqueue s fs) gs ≡ enqueue s (fs ++ gs)
enqueue-append s fs gs =
    ap (λ (ms : List Message). record s { messages = ms })
      (append_assoc s.messages (map message_of fs) (map message_of gs)
        ∙ ap (◌++◌ s.messages) (sym (map-append message_of fs gs)))

feed-rest :
    (s : Session) (fs : List Frame) (held tail : List ℕ)
    → All IsGood fs
    → IsPartial held
    → held ++ [] ≡ encode_all fs ++ tail
    → hold s held ≡ hold (enqueue s fs) tail
feed-rest s [] held tail g p e =
    let e' : held ≡ tail = sym (append-nil held) ∙ e in rw (e', append-nil s.messages)
feed-rest s (f ∷ fs) held tail g p e = absurd (
    not-IsPartial-encode f (encode_all fs ++ tail) g.0 (
      subst IsPartial (sym (append-nil held) ∙ e ∙ append_assoc (encode f) (encode_all fs) tail) p))

feed-step :
    (s s' t : Session) (answers : List Recv) (events : List (List Recv))
    → try_recv answers s ≡ (true, s')
    → parse s' ≡ parsed t
    → feed s (answers ∷ events) ≡ feed t events
unfolding feed
feed-step s s' t answers events e p =
    ap (after_recv (λ t. feed t events)) e ∙ ap (after_parse (λ t. feed t events)) p

-- Whatever pieces a stream of good frames (payloads of 1 to 10485760 bytes) arrives in, over as
-- many events as it takes on a connection that stays open and with no message handled in between, a
-- session that holds a partial frame, and takes what it lacks from the stream, queues exactly these
-- frames in their order, and holds the partial frame behind them.
pub feed-frames :
    (s : Session) (events : List (List Recv)) (fs : List Frame) (held tail : List ℕ)
    → All IsOpen events
    → All IsGood fs
    → IsPartial held
    → IsPartial tail
    → held ++ received_all events ≡ encode_all fs ++ tail
    → feed (hold s held) events ≡ parsed (hold (enqueue s fs) tail)
feed-frames s [] fs held tail o g p q e = unfold feed in ap parsed (feed-rest s fs held tail g p e)
feed-frames s (answers ∷ events) fs held tail o g p q e =
    let more : List ℕ = received_all events in
    let e' : (held ++ received answers) ++ more ≡ encode_all fs ++ tail =
      append_assoc held (received answers) more ∙ e in
    let c = cut fs (held ++ received answers) more tail g q e' in
    let good : All IsGood c.front × All IsGood c.back =
      All-split IsGood c.front c.back (subst (All IsGood) c.frames g) in
    let now = parse-hold s held (received answers) c.front c.held good.0 c.incomplete c.taken in
    feed-step (hold s held) _ _ answers events (try_recv_open answers (hold s held) o.0) now
    ∙ feed-frames (enqueue s c.front) events c.back c.held tail o.1 good.1 c.incomplete q c.left
    ∙ ap (λ (u : Session). parsed (hold u tail))
        (enqueue-append s c.front c.back ∙ ap (enqueue s) (sym c.frames))
