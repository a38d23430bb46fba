-- ===== src/Client/Setup.antt =====
-- client.cc: `SetupHostname`, `SetupUsername` and `SetupSocket`.
use cpp_remote_screen_captur.Base.{ℕ, Bool, true, false, List, Option, none, some}
use cpp_remote_screen_captur.Base.Bytes.{codes}
use cpp_remote_screen_captur.Session.State.{Errno}
use cpp_remote_screen_captur.Client.State.{
  Client, Io, done, threw, print, connected, socket_failed, inet_pton_failed, connect_failed,
}

-- `name` is what `gethostname` has written, up to its zero byte, or `none` where it fails.
unfoldable pub setup_hostname : Option (List ℕ) → Client → Client
setup_hostname (some name) c = record c { hostname = name }
setup_hostname none c = record c { hostname = codes "unknown-host" }

-- `name` is the `pw_name` that `getpwuid` finds, or `none` for a null pointer.
unfoldable pub setup_username : Option (List ℕ) → Client → Client
setup_username (some name) c = record c { username = name }
setup_username none c = record c { username = codes "unknown-user" }

-- What `socket` answers.
pub data Opened : Type 0 where
  opened : ℕ → Opened
  refused : Errno → Opened

-- The answers of `socket`, `inet_pton` and `connect`, the last one `none` where it succeeds.
pub record Connecting : Type 0 where
  pub socket : Opened
  pub address_ok : Bool
  pub connect_error : Option Errno

abbrev pub connect : Connecting → Client → Io (Unit {0}) × Client
connect sys c = elim sys.address_ok [
  | false ↦ (threw inet_pton_failed, c)
  | true ↦ elim sys.connect_error [
    | some e ↦ (threw (connect_failed e), c)
    | none ↦ (done tt, print connected c)
  ]
]

unfoldable pub setup_socket : Connecting → Client → Io (Unit {0}) × Client
setup_socket sys c = elim sys.socket [
  | opened fd ↦ connect sys (record c { server_fd = some fd })
  | refused e ↦ (threw (socket_failed e), record c { server_fd = none })
]
