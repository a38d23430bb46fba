-- ===== src/Server/Handlers.antt =====
-- server.cc: `CloseSession`, `UpdateEpollEvents` and the handlers of a client's events.
use cpp_remote_screen_captur.Base.{
  ℕ, [], ◌∷◌, ◌++◌, Bool, true, false, ◌||◌, Option, none, some, ◌==◌, if◌then◌else◌,
}
use cpp_remote_screen_captur.Base.Table.{find, put, erase}
use cpp_remote_screen_captur.Session.State.{Session, Errno, Result, ok, err}
use cpp_remote_screen_captur.Session.Parser.{Parsed, parsed, running, threw, parse}
use cpp_remote_screen_captur.Session.Socket.{
  try_recv, try_send, send_auth_response, send_buffer_empty, is_message_complete,
}
use cpp_remote_screen_captur.Session.Auth.{get_message_type, handle_auth_request}
use cpp_remote_screen_captur.Session.Files.{handle_img_message}
use cpp_remote_screen_captur.Server.State.{
  Server, Event, Ran, ran, raised, hung, undefined, ◌>>=◌, store, close_connection,
  epoll_ctl_failed, session_error,
}

-- The last pointer to the session goes with the call, and its descriptor is closed.
unfoldable pub close_session : Session → Server → Server
close_session s v = record v {
  interest = erase s.client_fd v.interest;
  table = erase s.client_fd v.table;
  retired = v.retired ++ s ∷ [];
  log = v.log ++ close_connection s.client_host s.client_port ∷ [];
}

-- `ctl` is the `errno` of `epoll_ctl`, or `none` where it succeeds.
unfoldable pub update_epoll_events : ℕ → Bool → Option Errno → Server → Ran (Unit {0})
update_epoll_events fd out none v = ran tt (record v { interest = put fd out v.interest })
update_epoll_events fd out (some e) v = raised (epoll_ctl_failed e) v

abbrev pub returning_true : Ran (Unit {0}) → Ran Bool
returning_true r = r >>= λ _ v. ran true v

abbrev pub after_out : Event → Server → Bool × Session → Ran Bool
after_out ev v (false, s) = ran false (store ev.fd s v)
after_out ev v (true, s) =
    if send_buffer_empty s
    then returning_true (update_epoll_events ev.fd false ev.out_ctl (store ev.fd s v))
    else ran true (store ev.fd s v)

unfoldable pub handle_out_event : Event → Session → Server → Ran Bool
handle_out_event ev s v = after_out ev v (try_send ev.out_sends s)

abbrev pub after_response : Event → Server → Bool × Session → Ran Bool
after_response ev v (false, s) = ran false (store ev.fd s v)
after_response ev v (true, s) =
    if send_buffer_empty s
    then ran true (store ev.fd s v)
    else returning_true (update_epoll_events ev.fd true ev.in_ctl (store ev.fd s v))

abbrev pub after_auth : Event → Server → Option (Bool × Session) → Ran Bool
after_auth ev v none = undefined
after_auth ev v (some (accepted, s)) =
    after_response ev v (send_auth_response ev.in_sends accepted s)

abbrev pub after_img : Event → Server → Option Session → Ran Bool
after_img ev v none = undefined
after_img ev v (some s) = ran true (store ev.fd s v)

-- The branch on the type of the message in front.
abbrev pub after_type : Event → Session → Server → Option (Result ℕ) → Ran Bool
after_type ev s v none = undefined
after_type ev s v (some (err e)) = raised (session_error e) (store ev.fd s v)
after_type ev s v (some (ok msg_type)) =
    if msg_type == b'A'
    then after_auth ev v (handle_auth_request s)
    else if msg_type == b'I'
    then after_img ev v (handle_img_message ev.saving s)
    else ran true (store ev.fd s v)

-- At most one message is handled.
unfoldable pub handle_message : Event → Session → Server → Ran Bool
handle_message ev s v =
    if is_message_complete s
    then after_type ev s v (get_message_type s)
    else ran true (store ev.fd s v)

abbrev pub after_parse : Event → Server → Parsed → Ran Bool
after_parse ev v (parsed s) = handle_message ev s v
after_parse ev v (running s) = hung (store ev.fd s v)
after_parse ev v (threw e) = raised (session_error e) v

abbrev pub after_recv : Event → Server → Bool × Session → Ran Bool
after_recv ev v (false, s) = ran false (store ev.fd s v)
after_recv ev v (true, s) = after_parse ev v (parse s)

unfoldable pub handle_in_event : Event → Session → Server → Ran Bool
handle_in_event ev s v = after_recv ev v (try_recv ev.in_recvs s)

-- A part of `HandleEvent`: the handler runs where its bit is set, and a session for which it is
-- false is closed. The result says whether the function goes on.
abbrev pub closing : ℕ → Bool → Server → Ran Bool
closing fd true v = ran true v
closing fd false v = elim (find fd v.table) [
  | none ↦ undefined
  | some s ↦ ran false (close_session s v)
]

abbrev pub stage : Bool → (Event → Session → Server → Ran Bool) → Event → Server → Ran Bool
stage set handler ev v =
    if set
    then elim (find ev.fd v.table) [ none ↦ undefined | some s ↦ handler ev s v >>= closing ev.fd ]
    else ran true v

abbrev pub in_stage : Event → Bool → Server → Ran (Unit {0})
in_stage ev true v = stage ev.epollin handle_in_event ev v >>= λ _ u. ran tt u
in_stage ev false v = ran tt v

unfoldable pub handle_event : Event → Server → Ran (Unit {0})
handle_event ev v = elim (find ev.fd v.table) [
  | none ↦ ran tt v
  | some s ↦
      if ev.epollerr || ev.epollrdhup || ev.epollhup
      then ran tt (close_session s v)
      else stage ev.epollout handle_out_event ev v >>= in_stage ev
]
