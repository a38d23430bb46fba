-- ===== src/Tests/Servers.antt =====
-- The server's theorems on a server with one client.
use cpp_remote_screen_captur.Base.Decimal.{to_string}
use cpp_remote_screen_captur.Base.{◌≡◌, refl, List, [], ◌∷◌, true, false, none, some}
use cpp_remote_screen_captur.Base.Bytes.{codes}
use cpp_remote_screen_captur.Base.Table.{find, put}
use cpp_remote_screen_captur.Session.State.{Session, open_session, eintr, eagain}
use cpp_remote_screen_captur.Session.Socket.{bytes, failed}
use cpp_remote_screen_captur.Server.State.{Server, Event, new_server}
use cpp_remote_screen_captur.Server.Handlers.{handle_event}
use cpp_remote_screen_captur.Server.Connections.{
  Incoming, Accept, incoming, accept_new_connections, add_connection,
}
use cpp_remote_screen_captur.Server.Invariant.{Inv, EventOk, IsServed}
use cpp_remote_screen_captur.Server.Service.{handle_event-EventOk}
use cpp_remote_screen_captur.Server.History.{
  accept_new_connections-Inv, here, next, accepts, Reach-IsServed,
}

abbrev caller : Incoming
caller = record { fd = 5; port = 40000; add_ctl = none; host = some (codes "10.0.0.7") }

abbrev pub arrivals : List Accept
arrivals = Accept.failed eintr ∷ incoming caller ∷ []

abbrev pub empty_server : Server
empty_server = new_server 5000

abbrev pub busy_server : Server
busy_server = accept_new_connections arrivals empty_server

empty_server-Inv : Inv empty_server
empty_server-Inv j s e = unfold find in cc

pub busy_server-Inv : Inv busy_server
busy_server-Inv =
    accept_new_connections-Inv arrivals empty_server empty_server-Inv (unfold find in (refl, tt))

-- The client sends a request with an empty hostname, and the answer waits for the socket.
abbrev pub request : Event
request = record {
  fd = 5;
  epollin = true;
  epollout = true;
  epollerr = false;
  epollrdhup = false;
  epollhup = false;
  out_sends = [];
  out_ctl = none;
  in_recvs = bytes (b'A' ∷ 0 ∷ 0 ∷ 0 ∷ 2 ∷ 0 ∷ 0 ∷ []) ∷ [];
  in_sends = failed eagain ∷ [];
  in_ctl = none;
  saving = record { timestamp = []; create_error = none; opened = true };
}

handle_event-EventOk_example : EventOk (handle_event request busy_server)
handle_event-EventOk_example = handle_event-EventOk request busy_server busy_server-Inv

abbrev pub client_session : Session
client_session = open_session 5 (codes "10.0.0.7") (codes "40000")

pub busy_server-find : find 5 busy_server.table ≡ some client_session
unfolding add_connection put to_string
busy_server-find = unfold find in unfold accept_new_connections in refl

Reach-IsServed_example : IsServed 5 client_session (find 5 busy_server.interest)
Reach-IsServed_example =
    Reach-IsServed {v = empty_server} {w = busy_server} refl
      (next here (accepts arrivals (unfold find in (refl, tt)) refl)) 5 client_session
      busy_server-find
