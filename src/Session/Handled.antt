-- ===== src/Session/Handled.antt =====
-- What handling a message leaves of a session.
use cpp_remote_screen_captur.Base.{◌≡◌, ap, subst, ◌∙◌, Bool, List, ◌∷◌, some, arith}
use cpp_remote_screen_captur.Session.State.{Session, Message, Result, ok, err}
use cpp_remote_screen_captur.Session.Auth.{
  handle_auth_request, parse_auth_message, finish_auth, pop_message, auth_front, Reading,
}
use cpp_remote_screen_captur.Session.AuthSound.{parse_auth-renames}
use cpp_remote_screen_captur.Session.Files.{handle_img_message, save_screen, Saving, img_front}
use cpp_remote_screen_captur.Session.Keeps.{AllTyped}

-- Handling the message in front.
pub record Handles (s s' : Session) : Type 0 where
  pub same_fd : s'.client_fd ≡ s.client_fd
  pub same_response : s'.response ≡ s.response
  pub typed : AllTyped s'.messages

finish_auth-Handles :
    (s : Session) (m : Message) (ms : List Message) (p : Result (Unit {0}) × Reading)
    → p.1.session.client_fd ≡ s.client_fd
    → p.1.session.response ≡ s.response
    → p.1.session.messages ≡ m ∷ ms
    → AllTyped (m ∷ ms)
    → Handles s (finish_auth p).1
finish_auth-Handles s m ms (ok u, t) f r q h = record {
  same_fd = f;
  same_response = r;
  typed = rw q h.1;
}
finish_auth-Handles s m ms (err x, t) f r q h = record {
  same_fd = f;
  same_response = r;
  typed = rw q h.1;
}

save_screen-keeps :
    (sys : Saving) (m : Message) (s : Session)
    → let t = save_screen sys m s in
      (t.client_fd ≡ s.client_fd) × (t.response ≡ s.response) × (t.messages ≡ s.messages)
unfolding save_screen
save_screen-keeps sys m s = ground arith

module _ (s : Session) (m : Message) (ms : List Message) (e : s.messages ≡ m ∷ ms)
    (h : AllTyped s.messages) where
  pub handle_auth-Handles :
      (b : Bool) × (t : Session) × (handle_auth_request s ≡ some (b, t)) × Handles s t
  unfolding handle_auth_request
  handle_auth-Handles =
      let r : Reading = record { session = s; buffer = m.bytes_vec } in
      let p = parse_auth_message r in
      let q = parse_auth-renames r in
      (
        (finish_auth p).0,
        (finish_auth p).1,
        ap (auth_front s) e,
        finish_auth-Handles s m ms p (ap (λ (t : Session). t.client_fd) q)
            (ap (λ (t : Session). t.response) q) (ap (λ (t : Session). t.messages) q ∙ e)
            (subst AllTyped e h),
      )

  pub handle_img-Handles :
      (sys : Saving) → (t : Session) × (handle_img_message sys s ≡ some t) × Handles s t
  unfolding handle_img_message
  handle_img-Handles sys =
      let q = save_screen-keeps sys m s in
      (
        pop_message (save_screen sys m s),
        ap (img_front sys s) e,
        record { same_fd = q.0; same_response = q.1; typed = rw (q.2 ∙ e) h' },
      )
    where
      h' : AllTyped ms
      h' = (subst AllTyped e h).1
