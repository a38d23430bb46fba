-- ===== src/Session/Transfer.antt =====
-- What receiving and sending leave of a session.
use cpp_remote_screen_captur.Base.{
  ℕ, zero, suc, ◌≤◌, ◌≡◌, refl, ap, ◌∙◌, Bool, List, [], ◌∷◌, ◌++◌, length, take, drop, arith,
  append_assoc, take-append-drop, length-drop, if-cases, is_empty,
}
use cpp_remote_screen_captur.Session.State.{Session, eagain, ewouldblock, eintr, epipe, other}
use cpp_remote_screen_captur.Session.Socket.{
  Recv, bytes, Send, count, failed, try_recv, try_send, send_auth_response, accept_bytes, put_first,
  auth_byte,
}
use cpp_remote_screen_captur.Session.Keeps.{AllTyped, Parses}

-- Receiving.
pub try_recv-Parses :
    (answers : List Recv) (s : Session) → AllTyped s.messages → Parses s (try_recv answers s).1
unfolding try_recv
try_recv-Parses [] s h = record { same_fd = refl; same_response = refl; typed = h }
try_recv-Parses (bytes [] ∷ answers) s h = record {
  same_fd = refl;
  same_response = refl;
  typed = h;
}
try_recv-Parses (bytes (b ∷ bs) ∷ answers) s h =
    let t : Session = record s { request = s.request ++ b ∷ bs } in
    let p = try_recv-Parses answers t h in
    record { same_fd = p.same_fd; same_response = p.same_response; typed = p.typed }
try_recv-Parses (failed eagain ∷ answers) s h = record {
  same_fd = refl;
  same_response = refl;
  typed = h;
}
try_recv-Parses (failed ewouldblock ∷ answers) s h = record {
  same_fd = refl;
  same_response = refl;
  typed = h;
}
try_recv-Parses (failed eintr ∷ answers) s h = try_recv-Parses answers s h
try_recv-Parses (failed epipe ∷ answers) s h = record {
  same_fd = refl;
  same_response = refl;
  typed = h;
}
try_recv-Parses (failed (other e) ∷ answers) s h = record {
  same_fd = refl;
  same_response = refl;
  typed = h;
}

-- The second session has grown out of the first by sending.
pub record Sends (s s' : Session) : Type 0 where
  pub same_fd : s'.client_fd ≡ s.client_fd
  pub same_messages : s'.messages ≡ s.messages
  pub no_longer : length s'.response ≤ length s.response
  pub all_there : s'.sent ++ s'.response ≡ s.sent ++ s.response

Sends-refl : (s : Session) → Sends s s
Sends-refl s = record {
  same_fd = refl;
  same_messages = refl;
  no_longer = omega arith;
  all_there = refl;
}

accept_bytes-Sends : (n : ℕ) (s t : Session) → Sends (accept_bytes n s) t → Sends s t
accept_bytes-Sends n s t p = record {
  same_fd = p.same_fd;
  same_messages = p.same_messages;
  no_longer = omega (arith, p.no_longer, length-drop n s.response);
  all_there =
      p.all_there
      ∙ append_assoc s.sent (take n s.response) (drop n s.response)
      ∙ ap (◌++◌ s.sent) (take-append-drop n s.response);
}

-- Whatever the system answers, `TrySend` takes bytes off the response only as the connection
-- accepts them, from the front and in order: none is lost and none is sent twice. It does not
-- touch the descriptor and the queue.
pub try_send-Sends : (answers : List Send) (s : Session) → Sends s (try_send answers s).1
unfolding try_send
try_send-Sends [] s = Sends-refl s
try_send-Sends (count zero ∷ answers) s =
    if-cases (λ (p : Bool × Session). Sends s p.1) (is_empty s.response) _ _ (λ _. Sends-refl s)
      (λ _. record {
        same_fd = refl;
        same_messages = refl;
        no_longer = omega arith;
        all_there = refl;
      })
try_send-Sends (count (suc n) ∷ answers) s =
    if-cases (λ (p : Bool × Session). Sends s p.1) (is_empty s.response) _ _ (λ _. Sends-refl s)
      (λ _. accept_bytes-Sends (suc n) s _ (try_send-Sends answers (accept_bytes (suc n) s)))
try_send-Sends (failed eagain ∷ answers) s = Sends-refl s
try_send-Sends (failed ewouldblock ∷ answers) s = Sends-refl s
try_send-Sends (failed eintr ∷ answers) s =
    if-cases (λ (p : Bool × Session). Sends s p.1) (is_empty s.response) _ _ (λ _. Sends-refl s)
      (λ _. try_send-Sends answers s)
try_send-Sends (failed epipe ∷ answers) s =
    if-cases (λ (p : Bool × Session). Sends s p.1) (is_empty s.response) _ _ (λ _. Sends-refl s)
      (λ _. record {
        same_fd = refl;
        same_messages = refl;
        no_longer = omega arith;
        all_there = refl;
      })
try_send-Sends (failed (other e) ∷ answers) s =
    if-cases (λ (p : Bool × Session). Sends s p.1) (is_empty s.response) _ _ (λ _. Sends-refl s)
      (λ _. record {
        same_fd = refl;
        same_messages = refl;
        no_longer = omega arith;
        all_there = refl;
      })

put_first_bound : (b : ℕ) (r : List ℕ) → length r ≤ 1 → length (put_first b r) ≤ 1
put_first_bound b [] h = omega arith
put_first_bound b (x ∷ xs) h = omega arith

-- From a response of at most one byte `SendAuthResponse` leaves at most one byte, whatever the
-- system answers, and it does not touch the descriptor and the queue.
pub send_auth_response_bound :
    (answers : List Send) (accepted : Bool) (s : Session)
    → length s.response ≤ 1
    → let t = (send_auth_response answers accepted s).1 in
      (t.client_fd ≡ s.client_fd) × (t.messages ≡ s.messages) × (length t.response ≤ 1)
unfolding send_auth_response
send_auth_response_bound answers accepted s h =
    let b = auth_byte accepted in
    let p = try_send-Sends answers (record s { response = put_first b s.response }) in
    (p.same_fd, p.same_messages, omega (arith, p.no_longer, put_first_bound b s.response h))
