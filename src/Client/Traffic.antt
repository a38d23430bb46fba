-- ===== src/Client/Traffic.antt =====
-- What a client puts on its connection, and when it stops.
use cpp_remote_screen_captur.Base.{
  ℕ, zero, suc, ◌<◌, ◌^◌, ◌≡◌, Bool, true, false, List, [], ◌∷◌, ◌++◌, length, arith, refl, sym, ap,
  ◌∙◌, append_assoc, All,
}
use cpp_remote_screen_captur.Session.Socket.{Recv, Send, bytes}
use cpp_remote_screen_captur.Session.Framing.{Frame, encode, encode_all}
use cpp_remote_screen_captur.Client.State.{Client, done, print, authenticated}
use cpp_remote_screen_captur.Client.Messages.{
  img_frame, auth_frame, create_authentication_request-encode,
}
use cpp_remote_screen_captur.Client.Transfer.{send_all_returns, recv_all_one, IsSending, total}
use cpp_remote_screen_captur.Client.Loop.{
  Grab, grabbed, failed_grab, Round, wait_loop, try_authenticate,
}

abbrev pub frames_of_grab : Grab → List Frame
frames_of_grab (grabbed img_bytes) = img_frame img_bytes ∷ []
frames_of_grab (failed_grab e) = []

abbrev pub IsSendable : Round → Type 0
IsSendable r = All (λ (f : Frame). length f.payload < 2 ^ 32) (frames_of_grab r.grab)

-- The frames of the first `k` rounds.
abbrev pub frames_of : ℕ → List Round → List Frame
frames_of zero rounds = []
frames_of (suc k) [] = []
frames_of (suc k) (r ∷ rounds) = frames_of_grab r.grab ++ frames_of k rounds

pub encode_all-append :
    (fs gs : List Frame) → encode_all (fs ++ gs) ≡ encode_all fs ++ encode_all gs
encode_all-append [] gs = refl
encode_all-append (f ∷ fs) gs =
    ap (◌++◌ (encode f)) (encode_all-append fs gs)
    ∙ sym (append_assoc (encode f) (encode_all fs) (encode_all gs))

-- The flag, read clear `n` times.
abbrev pub clear_values : ℕ → List Bool
clear_values zero = []
clear_values (suc n) = false ∷ clear_values n

-- How a wait of at most `i` seconds over the values `flags` ends: after `n` clear values it has
-- slept its time, or the next value is set, or no value is left, where the flag is set; `rest` is left for later.
pub data Waited (i : ℕ) (flags : List Bool) (n : ℕ) (rest : List Bool) : Type 0 where
  slept_all : n ≡ i → flags ≡ clear_values n ++ rest → Waited i flags n rest
  stopped :
      (later : List Bool)
      → n < i
      → rest ≡ []
      → flags ≡ clear_values n ++ true ∷ later
      → Waited i flags n rest
  ran_out : n < i → rest ≡ [] → flags ≡ clear_values n → Waited i flags n rest

Waited-suc :
    (i : ℕ) (flags : List Bool) (n : ℕ) (rest : List Bool)
    → Waited i flags n rest
    → Waited (suc i) (false ∷ flags) (suc n) rest
Waited-suc i flags n rest (slept_all e f) = slept_all (ap suc e) (ap (◌∷◌ false) f)
Waited-suc i flags n rest (stopped later l e f) = stopped later (omega arith) e (ap (◌∷◌ false) f)
Waited-suc i flags n rest (ran_out l e f) = ran_out (omega arith) e (ap (◌∷◌ false) f)

-- A wait finds the flag clear as often as it sleeps a second, and it ends when it has slept
-- `_timeout_sec` seconds, leaving the later readings of the flag for what follows, or earlier at
-- the first reading that finds the flag set.
pub wait_loop_slept :
    (i : ℕ) (flags : List Bool) → Waited i flags (wait_loop i flags).0 (wait_loop i flags).1
unfolding wait_loop
wait_loop_slept zero flags = slept_all refl refl
wait_loop_slept (suc i) [] = ran_out (omega arith) refl refl
wait_loop_slept (suc i) (true ∷ flags) = stopped flags (omega arith) refl refl
wait_loop_slept (suc i) (false ∷ flags) =
    Waited-suc i flags (wait_loop i flags).0 (wait_loop i flags).1 (wait_loop_slept i flags)

-- Where the connection takes the request of a client whose names have less than 65536 bytes and
-- then brings 'Y', the client is authenticated, and the connection has had exactly the
-- authentication frame.
pub try_authenticate_accepts :
    (sends : List Send) (recvs : List Recv) (c : Client)
    → length c.hostname < 2 ^ 16
    → length c.username < 2 ^ 16
    → IsSending sends
    → total sends ≡ length (encode (auth_frame c.hostname c.username))
    → try_authenticate sends (bytes (b'Y' ∷ []) ∷ recvs) c ≡ (
      done true,
      print authenticated (record c { sent = c.sent ++ encode (auth_frame c.hostname c.username) }),
    )
unfolding try_authenticate
try_authenticate_accepts sends recvs c h u s t = rw (
  create_authentication_request-encode c.hostname c.username h u,
  send_all_returns sends (encode (auth_frame c.hostname c.username)) s t,
  recv_all_one recvs b'Y',
)
