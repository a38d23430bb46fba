-- ===== src/Server/Fronts.antt =====
-- server.cc: `HandleInEvent` by the kind of the message in front of the queue.
use cpp_remote_screen_captur.Base.{
  ℕ, ◌≡◌, ◌≢◌, ==_false, refl, ap, ◌∙◌, Bool, true, not, List, [], ◌∷◌, some, is_empty,
  if◌then◌else◌,
}
use cpp_remote_screen_captur.Session.State.{Session, Message, ok}
use cpp_remote_screen_captur.Session.Buffer.{peek_uint8}
use cpp_remote_screen_captur.Session.Auth.{type_of_front, get_message_type, handle_auth_request}
use cpp_remote_screen_captur.Session.Files.{handle_img_message}
use cpp_remote_screen_captur.Session.Framing.{Frame, message_of}
use cpp_remote_screen_captur.Server.State.{Server, Event, Ran, ran, store}
use cpp_remote_screen_captur.Server.Handlers.{after_type, after_auth, after_img, handle_message}

module _ (ev : Event) (t : Session) (v : Server) where
  pub handle_message-none : t.messages ≡ [] → handle_message ev t v ≡ ran true (store ev.fd t v)
  unfolding handle_message
  handle_message-none e = rw e refl

  -- The handler of the type that stands in front.
  abbrev pub by_kind : ℕ → Ran Bool
  by_kind kind = after_type ev t v (some (ok kind))

  handle_message-kind :
      (f : Frame) (ms : List Message)
      → t.messages ≡ message_of f ∷ ms
      → handle_message ev t v ≡ by_kind f.kind
  unfolding handle_message get_message_type peek_uint8
  handle_message-kind f ms e =
      ap
        (λ (q : List Message).
          if not (is_empty q)
          then after_type ev t v (type_of_front q)
          else ran true (store ev.fd t v))
        e

  pub handle_message-img :
      (f : Frame) (ms : List Message)
      → t.messages ≡ message_of f ∷ ms
      → f.kind ≡ b'I'
      → handle_message ev t v ≡ after_img ev v (handle_img_message ev.saving t)
  handle_message-img f ms e k = handle_message-kind f ms e ∙ ap by_kind k

  pub handle_message-auth :
      (f : Frame) (ms : List Message)
      → t.messages ≡ message_of f ∷ ms
      → f.kind ≡ b'A'
      → handle_message ev t v ≡ after_auth ev v (handle_auth_request t)
  handle_message-auth f ms e k = handle_message-kind f ms e ∙ ap by_kind k

  pub handle_message-other :
      (f : Frame) (ms : List Message)
      → t.messages ≡ message_of f ∷ ms
      → f.kind ≢ b'A'
      → f.kind ≢ b'I'
      → handle_message ev t v ≡ ran true (store ev.fd t v)
  handle_message-other f ms e a i =
      handle_message-kind f ms e ∙ rw (==_false f.kind b'A' a, ==_false f.kind b'I' i) refl
