-- ===== src/Server/Run.antt =====
-- server.cc: `SetupServerSocket`, `SetupEpoll`, `EventLoop` and `Run`.
use cpp_remote_screen_captur.Base.{
  ℕ, List, [], ◌∷◌, Option, none, some, Bool, true, false, ◌==◌, if◌then◌else◌,
}
use cpp_remote_screen_captur.Base.Table.{put}
use cpp_remote_screen_captur.Session.State.{Errno, eintr}
use cpp_remote_screen_captur.Server.State.{
  Server, ServerError, Event, Ran, ran, raised, hung, undefined, ◌>>=◌, print, socket_failed,
  reuse_addr_failed, bind_failed, listen_failed, epoll_create_failed, epoll_ctl_failed,
  epoll_wait_failed, no_reuse_port, no_keep_alive, waiting, run_error,
}
use cpp_remote_screen_captur.Server.Handlers.{handle_event}
use cpp_remote_screen_captur.Server.Connections.{Accept, accept_new_connections}

-- A descriptor, or -1 with `errno`.
pub data Descriptor : Type 0 where
  opened : ℕ → Descriptor
  refused : Errno → Descriptor

-- What the system answers while the server is set up; `none` where a call succeeds.
pub record Setup : Type 0 where
  pub socket : Descriptor
  pub reuse_addr : Option Errno
  pub reuse_port : Option Errno
  pub keep_alive : Option Errno
  pub bind : Option Errno
  pub listen : Option Errno
  pub epoll_create : Descriptor
  pub epoll_add : Option Errno

-- `if (failed) throw`.
abbrev pub checked : Option Errno → (Errno → ServerError) → Server → Ran (Unit {0})
checked none error v = ran tt v
checked (some e) error v = raised (error e) v

-- `if (failed) PrintInTerminal`.
abbrev pub warned : Option Errno → (Server → Errno → Server) → Server → Server
warned none line v = v
warned (some e) line v = line v e

abbrev pub with_socket : Descriptor → Server → Ran (Unit {0})
with_socket (opened fd) v = ran tt (record v { server_fd = some fd })
with_socket (refused e) v = raised (socket_failed e) (record v { server_fd = none })

unfoldable pub setup_server_socket : Setup → Server → Ran (Unit {0})
setup_server_socket sys v = with_socket sys.socket v >>= λ _ v1.
    checked sys.reuse_addr reuse_addr_failed v1 >>= λ _ v2.
    let v3 = warned sys.reuse_port (λ w e. print (no_reuse_port e) w) v2 in
    let v4 = warned sys.keep_alive (λ w e. print (no_keep_alive e) w) v3 in
    checked sys.bind bind_failed v4 >>= λ _ v5. checked sys.listen listen_failed v5

abbrev pub with_epoll : Descriptor → Server → Ran (Unit {0})
with_epoll (opened fd) v = ran tt (record v { epoll_fd = some fd })
with_epoll (refused e) v = raised (epoll_create_failed e) (record v { epoll_fd = none })

abbrev pub watch : Option ℕ → Server → Server
watch none v = v
watch (some fd) v = record v { interest = put fd false v.interest }

unfoldable pub setup_epoll : Setup → Server → Ran (Unit {0})
setup_epoll sys v = with_epoll sys.epoll_create v >>= λ _ v1.
    checked sys.epoll_add epoll_ctl_failed v1 >>= λ _ v2. ran tt (watch v2.server_fd v2)

-- An event with what `accept` answers if it is the server's own descriptor that is ready.
pub record Ready : Type 0 where
  pub event : Event
  pub accepts : List Accept

abbrev pub is_own : Option ℕ → ℕ → Bool
is_own none fd = false
is_own (some own) fd = own == fd

unfoldable pub dispatch : Ready → Server → Ran (Unit {0})
dispatch r v =
    if is_own v.server_fd r.event.fd
    then ran tt (accept_new_connections r.accepts v)
    else handle_event r.event v

-- The `for` loop over the events of one `epoll_wait`.
unfoldable pub handle_ready : List Ready → Server → Ran (Unit {0})
handle_ready [] v = ran tt v
handle_ready (r ∷ rs) v = dispatch r v >>= λ _ u. handle_ready rs u

-- A round of the event loop: the value of the flag, and what `epoll_wait` answers.
pub data Wait : Type 0 where
  events : List Ready → Wait
  failed : Errno → Wait

pub record Round : Type 0 where
  pub stopped : Bool
  pub wait : Wait

-- The Boolean says whether the loop has ended, by the flag; a list of rounds may end before.
unfoldable pub loop : List Round → Server → Ran Bool
loop [] v = ran false v
loop (r ∷ rs) v = elim r.stopped [
  | true ↦ ran true v
  | false ↦ elim r.wait [
    | failed eintr ↦ loop rs v
    | failed e ↦ raised (epoll_wait_failed e) v
    | events es ↦ handle_ready es v >>= λ _ u. loop rs u
  ]
]

unfoldable pub event_loop : List Round → Server → Ran Bool
unfolding loop
event_loop rounds v = loop rounds (print waiting v)

-- The handler of `Run`: the error is printed, and `Run` returns.
abbrev pub caught : Ran Bool → Ran Bool
caught (ran ended v) = ran ended v
caught (raised e v) = ran true (print (run_error e) v)
caught (hung v) = hung v
caught undefined = undefined

unfoldable pub run : Setup → List Round → Server → Ran Bool
run sys rounds v =
    caught
      (setup_server_socket sys v >>= λ _ v1. setup_epoll sys v1 >>= λ _ v2. event_loop rounds v2)
