-- ===== src/Server/State.antt =====
-- server.h: the server, what it throws and prints, and what the system answers it.
use cpp_remote_screen_captur.Base.{ℕ, List, [], ◌∷◌, ◌++◌, Bool, Option, none}
use cpp_remote_screen_captur.Base.Table.{put}
use cpp_remote_screen_captur.Session.State.{Session, Errno, Error}
use cpp_remote_screen_captur.Session.Socket.{Recv, Send}
use cpp_remote_screen_captur.Session.Files.{Saving}

-- `std::runtime_error`, by the call that fails; `session_error` comes out of a session.
pub data ServerError : Type 0 where
  socket_failed reuse_addr_failed bind_failed listen_failed : Errno → ServerError
  epoll_create_failed epoll_ctl_failed epoll_wait_failed : Errno → ServerError
  session_error : Error → ServerError

pub data ServerLine : Type 0 where
  no_reuse_port no_keep_alive accept_error add_error : Errno → ServerLine
  inet_ntop_failed waiting : ServerLine
  new_connection close_connection : List ℕ → List ℕ → ServerLine
  run_error : ServerError → ServerLine

-- `table` is `_fd_session_ht`. `interest` is epoll's set: each mask is EPOLLIN | EPOLLET, and with
-- `true` also EPOLLOUT. `retired` holds the sessions whose last pointer is gone, oldest first.
pub record Server : Type 0 where
  pub listen_port : ℕ
  pub server_fd : Option ℕ
  pub epoll_fd : Option ℕ
  pub table : List (ℕ × Session)
  pub interest : List (ℕ × Bool)
  pub retired : List Session
  pub log : List ServerLine

-- The constructor.
abbrev pub new_server : ℕ → Server
new_server port = record {
  listen_port = port;
  server_fd = none;
  epoll_fd = none;
  table = [];
  interest = [];
  retired = [];
  log = [];
}

abbrev pub print : ServerLine → Server → Server
print line v = record v { log = v.log ++ line ∷ [] }

-- The session behind the shared pointer, after a call that has changed it.
abbrev pub store : ℕ → Session → Server → Server
store fd s v = record v { table = put fd s v.table }

-- An event of `epoll_wait`, with what the system answers while it is handled: to the `send` and
-- `epoll_ctl` calls of `HandleOutEvent`, and to the `recv`, `send`, `epoll_ctl` and file calls of
-- `HandleInEvent`.
pub record Event : Type 0 where
  pub fd : ℕ
  pub epollin : Bool
  pub epollout : Bool
  pub epollerr : Bool
  pub epollrdhup : Bool
  pub epollhup : Bool
  pub out_sends : List Send
  pub out_ctl : Option Errno
  pub in_recvs : List Recv
  pub in_sends : List Send
  pub in_ctl : Option Errno
  pub saving : Saving

-- How a call ends: it returns, throws, never returns since the loop of `ParseMessage` does not end,
-- or takes the front of an empty queue.
pub data Ran {ℓ} (A : Type ℓ) : Type ℓ where
  ran : A → Server → Ran A
  raised : ServerError → Server → Ran A
  hung : Server → Ran A
  undefined : Ran A

infixl 5 ◌>>=◌
abbrev pub ◌>>=◌ {ℓ κ} : {A : Type ℓ} {B : Type κ} → Ran A → (A → Server → Ran B) → Ran B
ran a v >>= f = f a v
raised e v >>= f = raised e v
hung v >>= f = hung v
undefined >>= f = undefined
