-- ===== src/Tests/Conversations.antt =====
-- A client's request and its images at a server, among the other clients.
use cpp_remote_screen_captur.Base.Decimal.{to_string}
use cpp_remote_screen_captur.Session.Parser.{parse_message, parse_round}
use cpp_remote_screen_captur.Server.Connections.{accept_new_connections, add_connection}
use cpp_remote_screen_captur.Base.{
  ◌≡◌, refl, subst, List, [], ◌∷◌, ◌++◌, ◌⊎◌, arith, true, false, none, some,
}
use cpp_remote_screen_captur.Base.Bytes.{codes}
use cpp_remote_screen_captur.Base.Table.{find, put}
use cpp_remote_screen_captur.Session.State.{Session, clear, eagain, eintr}
use cpp_remote_screen_captur.Session.Socket.{Recv, bytes, failed, count, try_recv}
use cpp_remote_screen_captur.Session.Auth.{
  get_message_type, handle_auth_request, parse_auth_message, all_name_chars, is_valid_name,
}
use cpp_remote_screen_captur.Session.Buffer.{peek_uint8, pop_uint16, pop_string}
use cpp_remote_screen_captur.Session.Socket.{send_auth_response}
use cpp_remote_screen_captur.Client.State.{Client, new_client, done}
use cpp_remote_screen_captur.Client.Messages.{create_authentication_request}
use cpp_remote_screen_captur.Client.Loop.{try_authenticate}
use cpp_remote_screen_captur.Server.State.{Server, Event, ran, new_connection}
use cpp_remote_screen_captur.Server.Handlers.{handle_event, handle_in_event, handle_message}
use cpp_remote_screen_captur.Server.Invariant.{Inv}
use cpp_remote_screen_captur.Server.Answers.{Answers}
use cpp_remote_screen_captur.Server.Interleaving.{event-Inv, Run, over, arrives, another}
use cpp_remote_screen_captur.Conversation.Agreement.{both_agree, request_decided}
use cpp_remote_screen_captur.Tests.Servers.{
  empty_server, busy_server, busy_server-Inv, client_session,
}

abbrev pub client : Client
client = record (new_client (codes "10.0.0.1") 5000 1) {
  hostname = codes "pc";
  username = codes "me";
}

-- The two pieces of the client's request.
abbrev pub piece : List Recv → Event
piece recvs = record {
  fd = 5;
  epollin = true;
  epollout = false;
  epollerr = false;
  epollrdhup = false;
  epollhup = false;
  out_sends = [];
  out_ctl = none;
  in_recvs = recvs;
  in_sends = count 1 ∷ [];
  in_ctl = none;
  saving = record { timestamp = codes "now"; create_error = none; opened = true };
}

abbrev pub first_recvs : List Recv
first_recvs = bytes (b'A' ∷ 0 ∷ 0 ∷ []) ∷ failed eagain ∷ []

abbrev pub second_recvs : List Recv
second_recvs =
    bytes (0 ∷ 8 ∷ 0 ∷ 2 ∷ b'p' ∷ []) ∷ failed eintr ∷ bytes (b'c' ∷ 0 ∷ 2 ∷ b'm' ∷ b'e' ∷ []) ∷ []

abbrev pub serving : Session → Server
serving t = record empty_server {
  table = (5, t) ∷ [];
  interest = (5, false) ∷ [];
  log = new_connection (codes "10.0.0.7") (codes "40000") ∷ [];
}

abbrev half_asked : Session
half_asked = record client_session {
  message = record clear { type_vec = b'A' ∷ [] };
  request = 0 ∷ 0 ∷ [];
}

abbrev pub answered : Session
answered = record client_session {
  client_hostname = codes "pc";
  client_username = codes "me";
  sent = b'Y' ∷ [];
}

busy_server-serving : busy_server ≡ serving client_session
unfolding accept_new_connections add_connection put to_string
busy_server-serving = refl

pub serving-Inv : Inv (serving client_session)
serving-Inv = subst Inv busy_server-serving busy_server-Inv

first_event :
    handle_event (piece first_recvs) (serving client_session) ≡ ran tt (serving half_asked)
unfolding handle_event find handle_in_event try_recv parse_message parse_round handle_message put
first_event = refl

abbrev elsewhere : Event
elsewhere = record (piece []) { fd = 9 }

-- An event of a descriptor without a session comes between the two.
stray_event : handle_event elsewhere (serving half_asked) ≡ ran tt (serving half_asked)
unfolding handle_event find
stray_event = refl

second_event : handle_event (piece second_recvs) (serving half_asked) ≡ ran tt (serving answered)
unfolding handle_event find handle_in_event try_recv parse_message parse_round handle_message
    get_message_type peek_uint8 handle_auth_request send_auth_response parse_auth_message pop_uint16
    pop_string all_name_chars is_valid_name put
second_event = refl

pub asking :
    Run Answers 5 (serving answered) (serving client_session) (first_recvs ∷ second_recvs ∷ [])
asking =
    arrives (piece first_recvs)
      (record { own = refl; readable = refl; not_writable = refl; no_error = refl; alive = tt })
      (record { taking = tt; watched = refl }) first_event
      (another elsewhere (omega arith) stray_event (
        arrives (piece second_recvs)
          (record { own = refl; readable = refl; not_writable = refl; no_error = refl; alive = tt })
          (record { taking = tt; watched = refl }) second_event over))

request_decided_example :
    (s : Session) × (find 5 (serving answered).table ≡ some s)
    × (s.messages ≡ [])
    × (s.sent ++ s.response ≡ b'Y' ∷ [])
    × ((true ≡ false) ⊎ ((s.client_hostname ≡ codes "pc") × (s.client_username ≡ codes "me")))
unfolding all_name_chars is_valid_name
request_decided_example =
    request_decided 5 (serving client_session) (serving answered) (codes "10.0.0.7") (codes "40000")
      client (first_recvs ∷ second_recvs ∷ []) (omega arith) (omega arith) asking serving-Inv
      (unfold find in refl) (unfold create_authentication_request in refl)

both_agree_example :
    ((try_authenticate (count 13 ∷ []) (bytes (b'Y' ∷ []) ∷ []) client).0 ≡ done true)
    × ((true ≡ false)
        ⊎ ((answered.client_hostname ≡ codes "pc") × (answered.client_username ≡ codes "me")))
unfolding all_name_chars is_valid_name
both_agree_example =
    both_agree 5 (serving client_session) (serving answered) (codes "10.0.0.7") (codes "40000")
      client (first_recvs ∷ second_recvs ∷ []) (omega arith) (omega arith) asking serving-Inv
      (unfold find in refl) (unfold create_authentication_request in refl) (count 13 ∷ []) []
      answered b'Y' [] tt (omega arith) (unfold find in refl) refl

pub answered-Inv : Inv (serving answered)
answered-Inv =
    event-Inv (piece second_recvs) (serving half_asked) (serving answered)
      (event-Inv (piece first_recvs) (serving client_session) (serving half_asked) serving-Inv
        first_event)
      second_event
