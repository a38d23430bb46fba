-- ===== src/Server/Arrivals.antt =====
-- server.cc: `HandleEvent` on an event that brings bytes of a stream of frames.
use cpp_remote_screen_captur.Base.{
  ℕ, ◌≡◌, refl, ap, ◌∙◌, Bool, true, false, ◌||◌, List, [], ◌∷◌, ◌++◌, Option, none, some,
  if◌then◌else◌, All,
}
use cpp_remote_screen_captur.Base.Table.{find}
use cpp_remote_screen_captur.Session.State.{Session, Message, Line, File}
use cpp_remote_screen_captur.Session.Framing.{Frame, encode_all, hold, enqueue, IsGood, IsPartial}
use cpp_remote_screen_captur.Session.Chunks.{IsOpen, received, try_recv_open, parse-hold}
use cpp_remote_screen_captur.Server.State.{Server, Event, Ran, ran, undefined, ◌>>=◌}
use cpp_remote_screen_captur.Server.Handlers.{
  after_parse, after_recv, handle_message, handle_in_event, handle_event, closing, stage, in_stage,
  close_session, handle_out_event,
}

-- An event of the descriptor that brings bytes on an open connection, and nothing else.
pub record IsArrival (fd : ℕ) (ev : Event) : Type 0 where
  pub own : ev.fd ≡ fd
  pub readable : ev.epollin ≡ true
  pub not_writable : ev.epollout ≡ false
  pub no_error : (ev.epollerr || ev.epollrdhup || ev.epollhup) ≡ false
  pub alive : IsOpen ev.in_recvs

-- What a session is but for its parser: `hold` gives it the bytes of a partial frame.
pub hold_fields :
    (s : Session) (tail : List ℕ) (host user : List ℕ) (ms : List Message) (r t : List ℕ)
    (l : List Line) (fs : List File)
    → record (hold s tail) {
      client_hostname = host;
      client_username = user;
      messages = ms;
      response = r;
      sent = t;
      log = l;
      files = fs;
    }
      ≡ hold
          (record s {
            client_hostname = host;
            client_username = user;
            messages = ms;
            response = r;
            sent = t;
            log = l;
            files = fs;
          })
          tail
hold_fields s [] host user ms r t l fs = refl
hold_fields s (a ∷ []) host user ms r t l fs = refl
hold_fields s (a ∷ b ∷ []) host user ms r t l fs = refl
hold_fields s (a ∷ b ∷ c ∷ []) host user ms r t l fs = refl
hold_fields s (a ∷ b ∷ c ∷ d ∷ []) host user ms r t l fs = refl
hold_fields s (a ∷ b ∷ c ∷ d ∷ e ∷ x) host user ms r t l fs = refl

module _ (ev : Event) (s : Session) (v : Server) (held tail : List ℕ) (fs : List Frame)
    (good : All IsGood fs) (partial : IsPartial tail)
    (stream : held ++ received ev.in_recvs ≡ encode_all fs ++ tail) where
  pub handle_in-frames :
      IsOpen ev.in_recvs
      → handle_in_event ev (hold s held) v ≡ handle_message ev (hold (enqueue s fs) tail) v
  unfolding handle_in_event
  handle_in-frames alive =
      ap (after_recv ev v) (try_recv_open ev.in_recvs (hold s held) alive)
      ∙ ap (after_parse ev v) (parse-hold s held (received ev.in_recvs) fs tail good partial stream)

  pub handle_event-frames :
      (fd : ℕ)
      → IsArrival fd ev
      → find fd v.table ≡ some (hold s held)
      → handle_event ev v
        ≡ (handle_message ev (hold (enqueue s fs) tail) v >>= closing ev.fd >>= λ _ u. ran tt u)
  unfolding handle_event
  handle_event-frames fd h e =
      let t : Session = hold s held in
      let e' : find ev.fd v.table ≡ some t = ap (λ k. find k v.table) h.own ∙ e in
      let done : Bool → Server → Ran (Unit {0}) = λ b u. ran tt u in
      ap
        (λ (o : Option Session). elim o [
          | none ↦ ran tt v
          | some u ↦
              if ev.epollerr || ev.epollrdhup || ev.epollhup
              then ran tt (close_session u v)
              else stage ev.epollout handle_out_event ev v >>= in_stage ev
        ])
        e'
      ∙ ap
          (λ b.
            if b
            then ran tt (close_session t v)
            else stage ev.epollout handle_out_event ev v >>= in_stage ev)
          h.no_error
      ∙ ap (λ b. stage b handle_out_event ev v >>= in_stage ev) h.not_writable
      ∙ ap (λ b. stage b handle_in_event ev v >>= done) h.readable
      ∙ ap
          (λ (o : Option Session).
            elim o [ none ↦ undefined | some u ↦ handle_in_event ev u v >>= closing ev.fd ]
            >>= done)
          e'
      ∙ ap (λ r. r >>= closing ev.fd >>= done) (handle_in-frames h.alive)
