-- ===== src/Server/Answers.antt =====
-- server.cc and session.cc: a client's request, over one event.
use cpp_remote_screen_captur.Base.{
  ℕ, ◌≡◌, refl, sym, ap, ◌∙◌, Bool, true, false, ◌&&◌, List, [], ◌∷◌, ◌++◌, Option, none, some,
  is_empty, if-cases,
}
use cpp_remote_screen_captur.Base.Table.{find, put, find-put_self}
use cpp_remote_screen_captur.Session.State.{Session, Message, Line, File, Errno}
use cpp_remote_screen_captur.Session.Socket.{auth_byte}
use cpp_remote_screen_captur.Session.Auth.{is_valid_name}
use cpp_remote_screen_captur.Session.Sending.{IsTaking}
use cpp_remote_screen_captur.Session.Framing.{hold, enqueue, IsPartial}
use cpp_remote_screen_captur.Session.Chunks.{received}
use cpp_remote_screen_captur.Server.State.{Server, Event, Ran, ran, ◌>>=◌, store}
use cpp_remote_screen_captur.Server.Handlers.{
  handle_event, closing, after_response, returning_true, update_epoll_events,
}
use cpp_remote_screen_captur.Server.Arrivals.{IsArrival, handle_event-frames, hold_fields}
use cpp_remote_screen_captur.Server.Fronts.{handle_message-none}
use cpp_remote_screen_captur.Server.Images.{hold_keeps, hold-hold}

-- The answer can be sent, now or later, and epoll takes the new mask.
pub record Answers (ev : Event) : Type 0 where
  pub taking : IsTaking ev.in_sends
  pub watched : ev.in_ctl ≡ none

-- A session that has written no file, with an empty queue, that holds the bytes `held` of a partial
-- frame.
pub record Quiet (held response sent host user : List ℕ) (t : Session) : Type 0 where
  pub holds : hold t held ≡ t
  pub empty : t.messages ≡ []
  pub wrote : t.files ≡ []
  pub responds : t.response ≡ response
  pub sends : t.sent ≡ sent
  pub hostname : t.client_hostname ≡ host
  pub username : t.client_username ≡ user

pub record QuietAt (fd : ℕ) (v : Server) (held response sent host user : List ℕ) : Type 0 where
  pub session : Session
  pub found : find fd v.table ≡ some session
  pub quiet : Quiet held response sent host user session

abbrev pub whole : Event → Ran Bool → Ran (Unit {0})
whole ev r = r >>= closing ev.fd >>= λ _ u. ran tt u

-- An event that completes no frame changes nothing but the bytes held.
pub arrival-QuietAt :
    (fd : ℕ) (v : Server) (ev : Event) (held tail response sent host user : List ℕ)
    → QuietAt fd v held response sent host user
    → IsArrival fd ev
    → IsPartial tail
    → held ++ received ev.in_recvs ≡ tail
    → (u : Server) × (handle_event ev v ≡ ran tt u) × QuietAt fd u tail response sent host user
arrival-QuietAt fd v ev held tail response sent host user h a partial stream =
    let t : Session = h.session in
    let t1 : Session = hold (enqueue t []) tail in
    let first =
      handle_event-frames ev t v held tail [] tt partial stream fd a
        (h.found ∙ ap some (sym h.quiet.holds)) in
    let (ms, files, hs, us, r, s) = hold_keeps (enqueue t []) tail in
    let empty : t1.messages ≡ [] = ms ∙ ap (λ (q : List Message). q ++ []) h.quiet.empty in
    (
      store ev.fd t1 v,
      first ∙ ap (whole ev) (handle_message-none ev t1 v empty),
      record {
        session = t1;
        found = ap (λ k. find fd (put k t1 v.table)) a.own ∙ find-put_self fd t1 v.table;
        quiet = record {
          holds = hold-hold (enqueue t []) tail;
          empty = empty;
          wrote = files ∙ h.quiet.wrote;
          responds = r ∙ h.quiet.responds;
          sends = s ∙ h.quiet.sends;
          hostname = hs ∙ h.quiet.hostname;
          username = us ∙ h.quiet.username;
        };
      },
    )

-- After the answer the session is stored, whichever mask is set.
pub respond :
    (ev : Event) (v : Server) (p : Bool × Session)
    → p.0 ≡ true
    → ev.in_ctl ≡ none
    → (u : Server) × (after_response ev v p ≡ ran true u) × (u.table ≡ put ev.fd p.1 v.table)
unfolding update_epoll_events
respond ev v (false, t) h c = cc
respond ev v (true, t) h c =
    if-cases (λ (r : Ran Bool). (u : Server) × (r ≡ ran true u) × (u.table ≡ put ev.fd t v.table))
      (is_empty t.response) _ _ (λ _. (store ev.fd t v, refl, refl))
      (λ _. (
        record (store ev.fd t v) { interest = put ev.fd true v.interest },
        ap
            (λ (ctl : Option Errno).
              returning_true (update_epoll_events ev.fd true ctl (store ev.fd t v)))
            c,
        refl,
      ))

-- Other fields than those of the parser do not matter to what is held.
pub hold_others :
    (s t : Session) (tail host user : List ℕ) (ms : List Message) (r x : List ℕ) (l : List Line)
    (fs : List File)
    → hold s tail ≡ s
    → t ≡ record s {
      client_hostname = host;
      client_username = user;
      messages = ms;
      response = r;
      sent = x;
      log = l;
      files = fs;
    }
    → hold t tail ≡ t
hold_others s t tail host user ms r x l fs h e =
    ap (λ (y : Session). hold y tail) e
    ∙ sym (hold_fields s tail host user ms r x l fs)
    ∙ ap
        (λ (y : Session). record y {
          client_hostname = host;
          client_username = user;
          messages = ms;
          response = r;
          sent = x;
          log = l;
          files = fs;
        })
        h
    ∙ sym e

-- The session once its request has been answered.
pub record Answered (fd : ℕ) (u : Server) (tail hostname username : List ℕ) : Type 0 where
  pub response : List ℕ
  pub sent : List ℕ
  pub host : List ℕ
  pub user : List ℕ
  pub at : QuietAt fd u tail response sent host user
  pub answer : sent ++ response ≡ auth_byte (is_valid_name hostname && is_valid_name username) ∷ []
  pub names :
      is_valid_name hostname ≡ true
      → is_valid_name username ≡ true
      → (host ≡ hostname) × (user ≡ username)
