-- ===== src/Session/Sending.antt =====
-- session.cc: `TrySend` and `SendAuthResponse` on a connection that stays open.
use cpp_remote_screen_captur.Base.{
  ℕ, zero, suc, ◌≡◌, refl, ap, ◌∙◌, List, [], ◌∷◌, ◌++◌, Bool, true, is_empty, if-cases,
}
use cpp_remote_screen_captur.Session.State.{Session, eagain, ewouldblock, eintr, epipe, other}
use cpp_remote_screen_captur.Session.Socket.{
  Send, count, failed, try_send, accept_bytes, put_first, auth_byte, send_auth_response,
}
use cpp_remote_screen_captur.Session.Transfer.{try_send-Sends}

-- Counts above 0, interruptions, and in the end EAGAIN.
abbrev pub IsTaking : List Send → Type 0
IsTaking [] = Unit {0}
IsTaking (count zero ∷ answers) = ⊥
IsTaking (count (suc n) ∷ answers) = IsTaking answers
IsTaking (failed eagain ∷ answers) = Unit {0}
IsTaking (failed ewouldblock ∷ answers) = Unit {0}
IsTaking (failed eintr ∷ answers) = IsTaking answers
IsTaking (failed epipe ∷ answers) = ⊥
IsTaking (failed (other e) ∷ answers) = ⊥

abbrev Fine : Bool × Session → Type 0
Fine p = p.0 ≡ true

pub try_send_open :
    (answers : List Send) (s : Session) → IsTaking answers → (try_send answers s).0 ≡ true
unfolding try_send
try_send_open [] s h = refl
try_send_open (count zero ∷ answers) s h = absurd h
try_send_open (count (suc n) ∷ answers) s h =
    if-cases Fine (is_empty s.response) _ _ (λ _. refl)
      (λ _. try_send_open answers (accept_bytes (suc n) s) h)
try_send_open (failed eagain ∷ answers) s h = refl
try_send_open (failed ewouldblock ∷ answers) s h = refl
try_send_open (failed eintr ∷ answers) s h =
    if-cases Fine (is_empty s.response) _ _ (λ _. refl) (λ _. try_send_open answers s h)
try_send_open (failed epipe ∷ answers) s h = absurd h
try_send_open (failed (other e) ∷ answers) s h = absurd h

-- Only the response, what has been sent and the log are changed.
abbrev pub SendsOnly : Session → Session → Type 0
SendsOnly s t = t ≡ record s { response = t.response; sent = t.sent; log = t.log }

abbrev Only : Session → Bool × Session → Type 0
Only s p = SendsOnly s p.1

pub try_send-SendsOnly : (answers : List Send) (s : Session) → SendsOnly s (try_send answers s).1
unfolding try_send
try_send-SendsOnly [] s = refl
try_send-SendsOnly (count zero ∷ answers) s =
    if-cases (Only s) (is_empty s.response) _ _ (λ _. refl) (λ _. refl)
try_send-SendsOnly (count (suc n) ∷ answers) s =
    if-cases (Only s) (is_empty s.response) _ _ (λ _. refl)
      (λ _. try_send-SendsOnly answers (accept_bytes (suc n) s))
try_send-SendsOnly (failed eagain ∷ answers) s = refl
try_send-SendsOnly (failed ewouldblock ∷ answers) s = refl
try_send-SendsOnly (failed eintr ∷ answers) s =
    if-cases (Only s) (is_empty s.response) _ _ (λ _. refl) (λ _. try_send-SendsOnly answers s)
try_send-SendsOnly (failed epipe ∷ answers) s =
    if-cases (Only s) (is_empty s.response) _ _ (λ _. refl) (λ _. refl)
try_send-SendsOnly (failed (other e) ∷ answers) s =
    if-cases (Only s) (is_empty s.response) _ _ (λ _. refl) (λ _. refl)

-- An answer to a session that has sent nothing is its one byte, sent or still to send.
pub send_auth_response_open :
    (answers : List Send) (accepted : Bool) (s : Session)
    → IsTaking answers
    → s.response ≡ []
    → s.sent ≡ []
    → let p = send_auth_response answers accepted s in
      (p.0 ≡ true) × SendsOnly s p.1 × (p.1.sent ++ p.1.response ≡ auth_byte accepted ∷ [])
unfolding send_auth_response
send_auth_response_open answers accepted s h empty silent =
    let s' : Session = record s { response = put_first (auth_byte accepted) s.response } in
    (
      try_send_open answers s' h,
      try_send-SendsOnly answers s',
      (try_send-Sends answers s').all_there
          ∙ ap (λ (x : List ℕ). x ++ put_first (auth_byte accepted) s.response) silent
          ∙ ap (put_first (auth_byte accepted)) empty,
    )
