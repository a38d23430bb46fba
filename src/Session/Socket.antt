-- ===== src/Session/Socket.antt =====
-- session.cc: `TryRecv`, `TrySend`, `SendAuthResponse` and the tests on the buffers.
-- The socket is non-blocking. A list holds what the system answers to the calls of one loop; when
-- it is used up, every further answer is EAGAIN.
use cpp_remote_screen_captur.Base.{
  ℕ, zero, suc, Bool, true, false, not, List, [], ◌∷◌, ◌++◌, take, drop, is_empty, if◌then◌else◌,
}
use cpp_remote_screen_captur.Session.State.{
  Session, Errno, eagain, ewouldblock, eintr, epipe, other, print, recv_closed, recv_failed,
  send_closed, send_failed, broken_pipe,
}

-- What `recv` answers: bytes (none of them means 0), or -1 with `errno`.
pub data Recv : Type 0 where
  bytes : List ℕ → Recv
  failed : Errno → Recv

-- What `send` answers: a count of bytes, or -1 with `errno`.
pub data Send : Type 0 where
  count : ℕ → Send
  failed : Errno → Send

-- The Boolean is the function's result.
unfoldable pub try_recv : List Recv → Session → Bool × Session
try_recv [] s = (true, s)
try_recv (bytes [] ∷ answers) s = (false, print recv_closed s)
try_recv (bytes (b ∷ bs) ∷ answers) s =
    try_recv answers (record s { request = s.request ++ b ∷ bs })
try_recv (failed eagain ∷ answers) s = (true, s)
try_recv (failed ewouldblock ∷ answers) s = (true, s)
try_recv (failed eintr ∷ answers) s = try_recv answers s
try_recv (failed epipe ∷ answers) s = (false, print (recv_failed epipe) s)
try_recv (failed (other e) ∷ answers) s = (false, print (recv_failed (other e)) s)

-- `n` bytes of the response have been accepted.
abbrev pub accept_bytes : ℕ → Session → Session
accept_bytes n s = record s { response = drop n s.response; sent = s.sent ++ take n s.response }

unfoldable pub try_send : List Send → Session → Bool × Session
try_send [] s = (true, s)
try_send (count zero ∷ answers) s =
    if is_empty s.response then (true, s) else (false, print send_closed s)
try_send (count (suc n) ∷ answers) s =
    let rest = try_send answers (accept_bytes (suc n) s) in
    if is_empty s.response then (true, s) else rest
try_send (failed eagain ∷ answers) s = (true, s)
try_send (failed ewouldblock ∷ answers) s = (true, s)
try_send (failed eintr ∷ answers) s =
    let rest = try_send answers s in if is_empty s.response then (true, s) else rest
try_send (failed epipe ∷ answers) s =
    if is_empty s.response then (true, s) else (false, print broken_pipe s)
try_send (failed (other e) ∷ answers) s =
    if is_empty s.response then (true, s) else (false, print (send_failed (other e)) s)

-- `_response[0] = resp`, or `push_back` into an empty vector.
abbrev pub put_first : ℕ → List ℕ → List ℕ
put_first resp [] = resp ∷ []
put_first resp (b ∷ bs) = resp ∷ bs

abbrev pub auth_byte : Bool → ℕ
auth_byte ok = if ok then b'Y' else b'N'

unfoldable pub send_auth_response : List Send → Bool → Session → Bool × Session
unfolding try_send
send_auth_response answers ok s =
    try_send answers (record s { response = put_first (auth_byte ok) s.response })

abbrev pub send_buffer_empty : Session → Bool
send_buffer_empty s = is_empty s.response

abbrev pub is_message_complete : Session → Bool
is_message_complete s = not (is_empty s.messages)
