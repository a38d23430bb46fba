-- ===== src/Server/Connections.antt =====
-- server.cc: `AcceptNewConnections`.
use cpp_remote_screen_captur.Base.{ℕ, List, [], ◌∷◌, ◌++◌, Option, none, some, false}
use cpp_remote_screen_captur.Base.Table.{put, erase}
use cpp_remote_screen_captur.Base.Decimal.{to_string}
use cpp_remote_screen_captur.Session.State.{Errno, eagain, ewouldblock, eintr, open_session}
use cpp_remote_screen_captur.Server.State.{
  Server, print, accept_error, add_error, inet_ntop_failed, new_connection,
}

-- A connection that `accept` gives: its descriptor and port, the `errno` of `epoll_ctl` or `none`,
-- and the text of its address, or `none` where `inet_ntop` fails.
pub record Incoming : Type 0 where
  pub fd : ℕ
  pub port : ℕ
  pub add_ctl : Option Errno
  pub host : Option (List ℕ)

-- What `accept` answers.
pub data Accept : Type 0 where
  incoming : Incoming → Accept
  failed : Errno → Accept

-- A registered connection. Without an address it is dropped: `client_fd` closes the descriptor,
-- and with it leaves epoll's set.
abbrev pub register : Incoming → Option (List ℕ) → Server → Server
register i none v = print inet_ntop_failed (record v { interest = erase i.fd v.interest })
register i (some host) v = record v {
  table = put i.fd (open_session i.fd host (to_string i.port)) v.table;
  log = v.log ++ new_connection host (to_string i.port) ∷ [];
}

-- The body of the loop on a valid descriptor.
unfoldable pub add_connection : Incoming → Option Errno → Server → Server
add_connection i (some e) v = print (add_error e) v
add_connection i none v = register i i.host (record v { interest = put i.fd false v.interest })

-- Behind the last answer of the list `accept` gives EAGAIN.
unfoldable pub accept_new_connections : List Accept → Server → Server
accept_new_connections [] v = v
accept_new_connections (incoming i ∷ answers) v =
    accept_new_connections answers (add_connection i i.add_ctl v)
accept_new_connections (failed eagain ∷ answers) v = v
accept_new_connections (failed ewouldblock ∷ answers) v = v
accept_new_connections (failed eintr ∷ answers) v = accept_new_connections answers v
accept_new_connections (failed e ∷ answers) v = print (accept_error e) v
