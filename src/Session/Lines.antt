-- ===== src/Session/Lines.antt =====
-- session.cc: the text of what is thrown, and of the lines that are printed.
use cpp_remote_screen_captur.Base.{ℕ, List, ◌++◌}
use cpp_remote_screen_captur.Base.Bytes.{codes}
use cpp_remote_screen_captur.Base.Decimal.{to_string}
use cpp_remote_screen_captur.Logger.{MessageType, k_info, k_error, k_warning}
use cpp_remote_screen_captur.Session.State.{
  Errno, Error, small_uint8, small_uint16, small_uint32, small_string, hostname_too_long,
  invalid_hostname, username_too_long, invalid_username, Line, too_large, recv_closed, recv_failed,
  send_closed, broken_pipe, send_failed, no_directory, no_file, saved_image, auth_failed, Session,
}

-- `std::runtime_error::what`.
unfoldable pub what : Error → List ℕ
what small_uint8 = codes "Buffer too small to read uint8_t"
what small_uint16 = codes "Buffer too small to read uint16_t"
what small_uint32 = codes "Buffer too small to read uint32_t"
what (small_string str_len) =
    codes "Buffer too small to read string of length " ++ to_string str_len
what hostname_too_long = codes "hostname too long"
what invalid_hostname = codes "Invalid hostname"
what username_too_long = codes "username too long"
what invalid_username = codes "Invalid username"

-- The client of a session in its lines.
unfoldable pub client_text : Session → List ℕ
client_text s = codes "[client: " ++ (s.client_host ++ (codes ":" ++ (s.client_port ++ codes "] ")))

-- `strerror`, and `std::error_code::message`.
module _ (strerror : Errno → List ℕ) (message : ℕ → List ℕ) where
  -- The type and the text of a line of the session.
  unfoldable pub line_text : Session → Line → MessageType × List ℕ
  unfolding what client_text
  line_text s (too_large msg_len) =
      (k_warning, client_text s ++ (codes "message too large: " ++ to_string msg_len))
  line_text s recv_closed = (k_warning, codes "recv() error: connection closed by peer")
  line_text s (recv_failed e) = (k_warning, codes "recv() error: " ++ strerror e)
  line_text s send_closed = (k_warning, codes "send() error: connection closed by peer")
  line_text s broken_pipe =
      (k_warning, codes "send() error: broken pipe (connection closed by client)")
  line_text s (send_failed e) = (k_warning, codes "send() error: " ++ strerror e)
  line_text s (no_directory ec) = (k_error, codes "create_directories() error: " ++ message ec)
  line_text s (no_file path) = (k_error, codes "open file failed: " ++ path)
  line_text s (saved_image path) =
      (k_info, client_text s ++ (codes "Saved image: \"" ++ (path ++ codes "\"")))
  line_text s (auth_failed e) =
      (k_warning, client_text s ++ (codes "Authentication failed: " ++ what e))
