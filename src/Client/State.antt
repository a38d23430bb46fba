-- ===== src/Client/State.antt =====
-- client.h: the client, what its functions throw and what it prints.
use cpp_remote_screen_captur.Base.{ℕ, List, [], ◌∷◌, ◌++◌, Option, none}
use cpp_remote_screen_captur.Session.State.{Errno}

-- `std::runtime_error`, by message.
pub data RuntimeError : Type 0 where
  socket_failed connect_failed send_failed recv_failed : Errno → RuntimeError
  inet_pton_failed send_broken_pipe send_closed recv_closed : RuntimeError

-- `grabber_error`, by message.
pub data GrabberError : Type 0 where
  no_display no_attributes no_image invalid_size : GrabberError
  unsupported_bpp : ℕ → GrabberError

-- A call of the client: it returns, throws, or has not returned yet, since the system has not
-- answered further.
pub data Io {ℓ} (A : Type ℓ) : Type ℓ where
  done : A → Io A
  threw : RuntimeError → Io A
  waiting : Io A

-- A line that the client gives to its logger.
pub data Line : Type 0 where
  connected authenticated image_sent : Line
  runtime_error : RuntimeError → Line
  grabber_error : GrabberError → Line

-- `server_fd` is `none` for an invalid descriptor. `sent` is what `send` has accepted so far.
pub record Client : Type 0 where
  pub server_host : List ℕ
  pub server_port : ℕ
  pub timeout_sec : ℕ
  pub hostname : List ℕ
  pub username : List ℕ
  pub server_fd : Option ℕ
  pub sent : List ℕ
  pub log : List Line

-- The constructor.
abbrev pub new_client : List ℕ → ℕ → ℕ → Client
new_client s_host s_port timeout_sec = record {
  server_host = s_host;
  server_port = s_port;
  timeout_sec = timeout_sec;
  hostname = [];
  username = [];
  server_fd = none;
  sent = [];
  log = [];
}

abbrev pub print : Line → Client → Client
print line c = record c { log = c.log ++ line ∷ [] }
