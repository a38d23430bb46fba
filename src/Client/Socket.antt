-- ===== src/Client/Socket.antt =====
-- client.cc: `SendAll` and `RecvAll`. The socket is blocking: where the list of the system's
-- answers ends, the call has not returned.
use cpp_remote_screen_captur.Base.{
  ℕ, zero, suc, ◌+◌, List, [], ◌∷◌, ◌++◌, length, take, drop, ltb, if◌then◌else◌,
}
use cpp_remote_screen_captur.Session.State.{Errno, eintr, epipe}
use cpp_remote_screen_captur.Session.Socket.{Recv, bytes, Send, count, failed}
use cpp_remote_screen_captur.Client.State.{
  Io, done, threw, waiting, RuntimeError, send_failed, recv_failed, send_broken_pipe, send_closed,
  recv_closed,
}

-- The error of a call of `send` that is not an interruption.
abbrev send_error : Errno → RuntimeError
send_error epipe = send_broken_pipe
send_error e = send_failed e

-- `sent` is `total_sent`, and `wire` what the connection has taken of the data so far.
unfoldable pub send_loop : List Send → List ℕ → ℕ → List ℕ → Io ℕ × List ℕ
send_loop [] octets sent wire =
    if ltb sent (length octets) then (waiting, wire) else (done sent, wire)
send_loop (count zero ∷ answers) octets sent wire =
    if ltb sent (length octets) then (threw send_closed, wire) else (done sent, wire)
send_loop (count (suc n) ∷ answers) octets sent wire =
    let rest = send_loop answers octets (sent + suc n) (wire ++ take (suc n) (drop sent octets)) in
    if ltb sent (length octets) then rest else (done sent, wire)
send_loop (failed eintr ∷ answers) octets sent wire =
    let rest = send_loop answers octets sent wire in
    if ltb sent (length octets) then rest else (done sent, wire)
send_loop (failed e ∷ answers) octets sent wire =
    if ltb sent (length octets) then (threw (send_error e), wire) else (done sent, wire)

-- The result and what the connection has taken.
unfoldable pub send_all : List Send → List ℕ → Io ℕ × List ℕ
unfolding send_loop
send_all answers octets = send_loop answers octets 0 []

-- `buffer` holds the bytes read so far, and its length is `bytes_read`.
unfoldable pub recv_loop : List Recv → ℕ → List ℕ → Io (List ℕ)
recv_loop [] total_bytes buffer = if ltb (length buffer) total_bytes then waiting else done buffer
recv_loop (bytes [] ∷ answers) total_bytes buffer =
    if ltb (length buffer) total_bytes then threw recv_closed else done buffer
recv_loop (bytes (b ∷ bs) ∷ answers) total_bytes buffer =
    let rest = recv_loop answers total_bytes (buffer ++ b ∷ bs) in
    if ltb (length buffer) total_bytes then rest else done buffer
recv_loop (failed eintr ∷ answers) total_bytes buffer =
    let rest = recv_loop answers total_bytes buffer in
    if ltb (length buffer) total_bytes then rest else done buffer
recv_loop (failed e ∷ answers) total_bytes buffer =
    if ltb (length buffer) total_bytes then threw (recv_failed e) else done buffer

-- The filled buffer.
unfoldable pub recv_all : List Recv → ℕ → Io (List ℕ)
unfolding recv_loop
recv_all answers total_bytes = recv_loop answers total_bytes []
