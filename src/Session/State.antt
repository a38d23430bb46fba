-- ===== src/Session/State.antt =====
-- session.h: the message, the session and its errors. A `std::vector<uint8_t>` and a
-- `std::string` are lists of bytes; the queue of messages is a list, its front first.
use cpp_remote_screen_captur.Base.{ℕ, List, [], ◌++◌, ◌∷◌}

-- What the session's functions throw as `std::runtime_error`, by message.
pub data Error : Type 0 where
  small_uint8 small_uint16 small_uint32 : Error
  small_string : ℕ → Error
  hostname_too_long invalid_hostname username_too_long invalid_username : Error

pub data Result {ℓ} (A : Type ℓ) : Type ℓ where
  ok : A → Result A
  err : Error → Result A

infixl 5 ◌>>=◌
abbrev pub ◌>>=◌ {ℓ κ} : {A : Type ℓ} {B : Type κ} → Result A → (A → Result B) → Result B
ok a >>= f = f a
err e >>= f = err e

-- The values of `errno` that the program tells apart.
pub data Errno : Type 0 where
  eagain ewouldblock eintr epipe : Errno
  other : ℕ → Errno

-- A line that the session gives to its logger, by the place that prints it.
pub data Line : Type 0 where
  too_large : ℕ → Line
  recv_closed : Line
  recv_failed : Errno → Line
  send_closed broken_pipe : Line
  send_failed : Errno → Line
  no_directory : ℕ → Line
  no_file saved_image : List ℕ → Line
  auth_failed : Error → Line

pub record Message : Type 0 where
  pub type_vec : List ℕ
  pub size_vec : List ℕ
  pub bytes_vec : List ℕ

-- `Message::Clear`, and a message as its constructor leaves it.
abbrev pub clear : Message
clear = record { type_vec = []; size_vec = []; bytes_vec = [] }

-- An image file that the session has written.
pub record File : Type 0 where
  pub path : List ℕ
  pub content : List ℕ

-- The last three fields are the session's traces outside, oldest first: the bytes that `send` has
-- accepted, the lines on the terminal, and the files.
pub record Session : Type 0 where
  pub client_fd : ℕ
  pub client_host : List ℕ
  pub client_port : List ℕ
  pub client_hostname : List ℕ
  pub client_username : List ℕ
  pub message : Message
  pub messages : List Message
  pub request : List ℕ
  pub response : List ℕ
  pub sent : List ℕ
  pub log : List Line
  pub files : List File

-- The constructor.
abbrev pub open_session : ℕ → List ℕ → List ℕ → Session
open_session fd host port = record {
  client_fd = fd;
  client_host = host;
  client_port = port;
  client_hostname = [];
  client_username = [];
  message = clear;
  messages = [];
  request = [];
  response = [];
  sent = [];
  log = [];
  files = [];
}

-- `_logger.PrintInTerminal`, as the session calls it.
abbrev pub print : Line → Session → Session
print line s = record s { log = s.log ++ line ∷ [] }
