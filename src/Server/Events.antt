-- ===== src/Server/Events.antt =====
-- server.cc: `HandleInEvent` and `HandleOutEvent`, against the invariant.
use cpp_remote_screen_captur.Base.{
  ℕ, ◌≤◌, ◌<◌, ◌≡◌, ◌≢◌, refl, sym, ap, subst, ◌∙◌, Bool, true, false, not, List, [], ◌∷◌, Option,
  none, some, length, arith, if-cases, ◌==◌, is_empty, if◌then◌else◌,
}
use cpp_remote_screen_captur.Base.Table.{find}
use cpp_remote_screen_captur.Session.State.{Session, Message, Result, ok}
use cpp_remote_screen_captur.Session.Parser.{Parsed, parsed, running, threw, parse}
use cpp_remote_screen_captur.Session.Buffer.{peek_uint8}
use cpp_remote_screen_captur.Session.Socket.{try_recv, try_send, send_auth_response}
use cpp_remote_screen_captur.Session.Auth.{get_message_type, type_of_front, handle_auth_request}
use cpp_remote_screen_captur.Session.Files.{handle_img_message}
use cpp_remote_screen_captur.Session.Keeps.{AllTyped, Parses, ParsedOk, parse_message-ParsedOk}
use cpp_remote_screen_captur.Session.Transfer.{
  Sends, try_recv-Parses, try_send-Sends, send_auth_response_bound,
}
use cpp_remote_screen_captur.Session.Handled.{Handles, handle_auth-Handles, handle_img-Handles}
use cpp_remote_screen_captur.Server.State.{Server, Event, Ran, ran, store}
use cpp_remote_screen_captur.Server.Handlers.{
  handle_out_event, handle_in_event, handle_message, after_out, after_response, after_auth,
  after_img, after_type, after_parse, after_recv,
}
use cpp_remote_screen_captur.Server.Invariant.{
  IsServed, Inv, HandlerOk, stored-true, stored-false, stored-mask,
}

empty-le : (r : List ℕ) → is_empty r ≡ true → length r ≤ 0
empty-le [] e = omega arith
empty-le (x ∷ xs) e = cc

-- A session that has nothing to send is served by any mask.
IsServed-idle :
    (fd : ℕ) (s : Session) (mask : Option Bool)
    → s.client_fd ≡ fd
    → AllTyped s.messages
    → mask ≢ none
    → is_empty s.response ≡ true
    → IsServed fd s mask
IsServed-idle fd s mask own typed reg idle = record {
  own_fd = own;
  typed = typed;
  bounded = omega (arith, empty-le s.response idle);
  registered = reg;
  armed = λ h. absurd (omega (arith, empty-le s.response idle));
}

some-ne-none : (b : Bool) → some b ≢ none
some-ne-none b e = cc

peek_uint8-eq-ok : (b : List ℕ) → 0 < length b → (n : ℕ) × (peek_uint8 b ≡ ok n)
unfolding peek_uint8
peek_uint8-eq-ok [] h = absurd (omega arith)
peek_uint8-eq-ok (x ∷ xs) h = (x, ground arith)

-- The type of the message in front is there to be read.
front_type :
    (s : Session) (m : Message) (ms : List Message)
    → s.messages ≡ m ∷ ms
    → AllTyped s.messages
    → (n : ℕ) × (get_message_type s ≡ some (ok n))
unfolding get_message_type
front_type s m ms e typed =
    let (n, f) = peek_uint8-eq-ok m.type_vec (subst AllTyped e typed).0 in
    (n, ap type_of_front e ∙ ap some f)

module _ (ev : Event) (v : Server) (inv : Inv v) where
  abbrev pub Ok : Ran Bool → Type 0
  Ok = HandlerOk ev.fd

  abbrev pub Served : Session → Type 0
  Served s = IsServed ev.fd s (find ev.fd v.interest)

  after_out-Ok : (s : Session) (p : Bool × Session) → Served s → Sends s p.1 → Ok (after_out ev v p)
  after_out-Ok s (false, t) h q = stored-false ev.fd t v inv (q.same_fd ∙ h.own_fd)
  after_out-Ok s (true, t) h q =
      let own = q.same_fd ∙ h.own_fd in
      let typed = subst AllTyped (sym q.same_messages) h.typed in
      if-cases Ok (is_empty t.response) _ _
        (λ idle.
          stored-mask ev.fd t v inv false ev.out_ctl
            (IsServed-idle ev.fd t (some false) own typed (some-ne-none false) idle))
        (λ busy. stored-true ev.fd t v inv (record {
          own_fd = own;
          typed = typed;
          bounded = omega (arith, q.no_longer, h.bounded);
          registered = h.registered;
          armed = λ k. h.armed (omega (arith, q.no_longer));
        }))

  pub handle_out-Ok : (s : Session) → Served s → Ok (handle_out_event ev s v)
  unfolding handle_out_event
  handle_out-Ok s h = after_out-Ok s (try_send ev.out_sends s) h (try_send-Sends ev.out_sends s)

  after_response-Ok :
      (p : Bool × Session)
      → p.1.client_fd ≡ ev.fd
      → AllTyped p.1.messages
      → length p.1.response ≤ 1
      → find ev.fd v.interest ≢ none
      → Ok (after_response ev v p)
  after_response-Ok (false, t) own typed bound reg = stored-false ev.fd t v inv own
  after_response-Ok (true, t) own typed bound reg =
      if-cases Ok (is_empty t.response) _ _
        (λ idle.
          stored-true ev.fd t v inv
            (IsServed-idle ev.fd t (find ev.fd v.interest) own typed reg idle))
        (λ busy. stored-mask ev.fd t v inv true ev.in_ctl (record {
          own_fd = own;
          typed = typed;
          bounded = bound;
          registered = some-ne-none true;
          armed = λ k. refl;
        }))

  handled-Served : (s t : Session) → Served s → Handles s t → Served t
  handled-Served s t h q = record {
    own_fd = q.same_fd ∙ h.own_fd;
    typed = q.typed;
    bounded = subst (λ (r : List ℕ). length r ≤ 1) (sym q.same_response) h.bounded;
    registered = h.registered;
    armed = λ k. h.armed (subst (λ (r : List ℕ). 0 < length r) q.same_response k);
  }

  -- The two kinds of message, each with the queue's front at hand.
  auth-Ok :
      (s : Session) (m : Message) (ms : List Message)
      → s.messages ≡ m ∷ ms
      → Served s
      → Ok (after_auth ev v (handle_auth_request s))
  auth-Ok s m ms e h =
      let (b, t, f, q) = handle_auth-Handles s m ms e h.typed in
      let g = handled-Served s t h q in
      let (own, msgs, bound) = send_auth_response_bound ev.in_sends b t g.bounded in
      subst (λ (o : Option (Bool × Session)). Ok (after_auth ev v o)) (sym f)
        (after_response-Ok (send_auth_response ev.in_sends b t) (own ∙ g.own_fd)
          (subst AllTyped (sym msgs) g.typed) bound g.registered)

  img-Ok :
      (s : Session) (m : Message) (ms : List Message)
      → s.messages ≡ m ∷ ms
      → Served s
      → Ok (after_img ev v (handle_img_message ev.saving s))
  img-Ok s m ms e h =
      let (t, f, q) = handle_img-Handles s m ms e h.typed ev.saving in
      subst (λ (o : Option Session). Ok (after_img ev v o)) (sym f)
        (stored-true ev.fd t v inv (handled-Served s t h q))

  front-Ok :
      (s : Session) (m : Message) (ms : List Message)
      → s.messages ≡ m ∷ ms
      → Served s
      → Ok (after_type ev s v (get_message_type s))
  front-Ok s m ms e h =
      let (n, f) = front_type s m ms e h.typed in
      subst (λ (o : Option (Result ℕ)). Ok (after_type ev s v o)) (sym f)
        (if-cases Ok (n == b'A') _ _ (λ _. auth-Ok s m ms e h)
          λ _.
            if-cases Ok (n == b'I') _ _ (λ _. img-Ok s m ms e h) λ _. stored-true ev.fd s v inv h)

  queue-Ok :
      (s : Session) (q : List Message)
      → s.messages ≡ q
      → Served s
      → Ok (
          if not (is_empty q)
          then after_type ev s v (get_message_type s)
          else ran true (store ev.fd s v))
  queue-Ok s [] e h = stored-true ev.fd s v inv h
  queue-Ok s (m ∷ ms) e h = front-Ok s m ms e h

  message-Ok : (s : Session) → Served s → Ok (handle_message ev s v)
  unfolding handle_message
  message-Ok s h = queue-Ok s s.messages refl h

  Parses-Served : (s t : Session) → Served s → Parses s t → Served t
  Parses-Served s t h q = record {
    own_fd = q.same_fd ∙ h.own_fd;
    typed = q.typed;
    bounded = subst (λ (r : List ℕ). length r ≤ 1) (sym q.same_response) h.bounded;
    registered = h.registered;
    armed = λ k. h.armed (subst (λ (r : List ℕ). 0 < length r) q.same_response k);
  }

  after_parse-Ok : (s : Session) (r : Parsed) → Served s → ParsedOk s r → Ok (after_parse ev v r)
  after_parse-Ok s (parsed t) h q = message-Ok t (Parses-Served s t h q)
  after_parse-Ok s (running t) h q = tt
  after_parse-Ok s (threw e) h q = q

  after_recv-Ok :
      (s : Session) (p : Bool × Session) → Served s → Parses s p.1 → Ok (after_recv ev v p)
  after_recv-Ok s (false, t) h q = stored-false ev.fd t v inv (q.same_fd ∙ h.own_fd)
  after_recv-Ok s (true, t) h q =
      after_parse-Ok t (parse t) (Parses-Served s t h q) (parse_message-ParsedOk _ t q.typed)

  pub handle_in-Ok : (s : Session) → Served s → Ok (handle_in_event ev s v)
  unfolding handle_in_event
  handle_in-Ok s h =
      after_recv-Ok s (try_recv ev.in_recvs s) h (try_recv-Parses ev.in_recvs s h.typed)
