-- ===== src/Client/Loop.antt =====
-- client.cc: `TryAuthenticate`, `WaitLoop`, `SendLoop` and `Run`.
use cpp_remote_screen_captur.Base.{
  ℕ, zero, suc, Bool, true, false, List, [], ◌∷◌, ◌++◌, Option, ◌==◌, if◌then◌else◌,
}
use cpp_remote_screen_captur.Session.Socket.{Recv, Send}
use cpp_remote_screen_captur.Client.State.{
  Client, Io, done, threw, waiting, print, authenticated, image_sent, runtime_error, grabber_error,
  GrabberError,
}
use cpp_remote_screen_captur.Client.Messages.{create_authentication_request, create_img_message}
use cpp_remote_screen_captur.Client.Socket.{send_all, recv_all}
use cpp_remote_screen_captur.Client.Setup.{Connecting, setup_hostname, setup_username, setup_socket}

-- A `SendAll`, with what the connection has taken added to the client's traces.
unfoldable pub send_bytes : List Send → List ℕ → Client → Io ℕ × Client
send_bytes answers octets c =
    let (result, wire) = send_all answers octets in (result, record c { sent = c.sent ++ wire })

-- The first byte of the answer is 'Y'.
abbrev pub is_yes : List ℕ → Bool
is_yes [] = false
is_yes (b ∷ bs) = b == b'Y'

abbrev pub after_response : Io (List ℕ) → Client → Io Bool × Client
after_response (done buffer) c =
    if is_yes buffer then (done true, print authenticated c) else (done false, c)
after_response (threw e) c = (done false, print (runtime_error e) c)
after_response waiting c = (waiting, c)

abbrev pub after_request : List Recv → Io ℕ × Client → Io Bool × Client
after_request answers (done n, c) = after_response (recv_all answers 1) c
after_request answers (threw e, c) = (done false, print (runtime_error e) c)
after_request answers (waiting, c) = (waiting, c)

-- What is thrown in the `try` block is printed, and the result is `false`.
unfoldable pub try_authenticate : List Send → List Recv → Client → Io Bool × Client
unfolding send_bytes
try_authenticate sends recvs c =
    after_request recvs (send_bytes sends (create_authentication_request c.hostname c.username) c)

-- The values that `stop_flag.load` gives, one to a call; behind the last one the flag is set.
-- The result is the count of seconds slept, and the values left.
unfoldable pub wait_loop : ℕ → List Bool → ℕ × List Bool
wait_loop zero flags = (0, flags)
wait_loop (suc i) [] = (0, [])
wait_loop (suc i) (true ∷ flags) = (0, [])
wait_loop (suc i) (false ∷ flags) = let (n, rest) = wait_loop i flags in (suc n, rest)

-- What `GrabAsPNG` does.
pub data Grab : Type 0 where
  grabbed : List ℕ → Grab
  failed_grab : GrabberError → Grab

-- The outside of one round of the loop: the screen, and what `send` answers.
pub record Round : Type 0 where
  pub grab : Grab
  pub sends : List Send

abbrev pub after_image : Io ℕ × Client → Io (Unit {0}) × Client
after_image (done n, c) = (done tt, print image_sent c)
after_image (threw e, c) = (threw e, c)
after_image (waiting, c) = (waiting, c)

-- The `try` block of the loop: only a `grabber_error` is caught.
unfoldable pub send_image : Grab → List Send → Client → Io (Unit {0}) × Client
unfolding send_bytes
send_image (grabbed img_bytes) sends c =
    after_image (send_bytes sends (create_img_message img_bytes) c)
send_image (failed_grab e) sends c = (done tt, print (grabber_error e) c)

abbrev pub and_then :
    (Client → Io (Unit {0}) × Client) → Io (Unit {0}) × Client → Io (Unit {0}) × Client
and_then next (done u, c) = next c
and_then next (threw e, c) = (threw e, c)
and_then next (waiting, c) = (waiting, c)

-- Where the list of rounds ends before the flag is set, the loop is still running.
unfoldable pub send_loop : List Round → List Bool → Client → Io (Unit {0}) × Client
send_loop rounds [] c = (done tt, c)
send_loop rounds (true ∷ flags) c = (done tt, c)
send_loop [] (false ∷ flags) c = (waiting, c)
send_loop (r ∷ rounds) (false ∷ flags) c =
    and_then (λ d. send_loop rounds (wait_loop d.timeout_sec flags).1 d)
      (send_image r.grab r.sends c)

-- Everything outside that a run of the client meets.
pub record World : Type 0 where
  pub host_name : Option (List ℕ)
  pub user_name : Option (List ℕ)
  pub connecting : Connecting
  pub auth_sends : List Send
  pub auth_recvs : List Recv
  pub rounds : List Round
  pub flags : List Bool

abbrev pub after_auth : World → Io Bool × Client → Io (Unit {0}) × Client
after_auth w (done true, c) = send_loop w.rounds w.flags c
after_auth w (done false, c) = (done tt, c)
after_auth w (threw e, c) = (threw e, c)
after_auth w (waiting, c) = (waiting, c)

-- The handler of `Run`.
abbrev pub caught : Io (Unit {0}) × Client → Io (Unit {0}) × Client
caught (threw e, c) = (done tt, print (runtime_error e) c)
caught (done u, c) = (done u, c)
caught (waiting, c) = (waiting, c)

unfoldable pub run : World → Client → Io (Unit {0}) × Client
run w c =
    let named = setup_username w.user_name (setup_hostname w.host_name c) in
    caught (
      and_then (λ d. after_auth w (try_authenticate w.auth_sends w.auth_recvs d))
        (setup_socket w.connecting named))
