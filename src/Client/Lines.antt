-- ===== src/Client/Lines.antt =====
-- client.cc and screen_grabber: the text of what is thrown, and of the lines that are printed.
use cpp_remote_screen_captur.Base.{ℕ, List, ◌++◌}
use cpp_remote_screen_captur.Base.Bytes.{codes}
use cpp_remote_screen_captur.Base.Decimal.{to_string}
use cpp_remote_screen_captur.Logger.{MessageType, k_info, k_error, k_warning}
use cpp_remote_screen_captur.Session.State.{Errno}
use cpp_remote_screen_captur.Client.State.{
  RuntimeError, socket_failed, connect_failed, send_failed, recv_failed, inet_pton_failed,
  send_broken_pipe, send_closed, recv_closed, GrabberError, no_display, no_attributes, no_image,
  invalid_size, unsupported_bpp, Line, connected, authenticated, image_sent, runtime_error,
  grabber_error, Client,
}

-- `grabber_error::what`.
unfoldable pub what : GrabberError → List ℕ
what no_display = codes "XOpenDisplay() failed. Check DISPLAY."
what no_attributes = codes "XGetWindowAttributes() failed."
what no_image = codes "XGetImage() failed."
what invalid_size = codes "Invalid screen size."
what (unsupported_bpp bpp) = codes "Unsupported bits_per_pixel: " ++ to_string bpp

module _ (strerror : Errno → List ℕ) where
  -- `std::runtime_error::what`.
  unfoldable pub runtime_what : RuntimeError → List ℕ
  runtime_what (socket_failed e) = codes "socket() error: " ++ strerror e
  runtime_what inet_pton_failed = codes "inet_pton() error."
  runtime_what (connect_failed e) = codes "connect(): " ++ strerror e
  runtime_what send_broken_pipe = codes "send() error: broken pipe (connection closed by server)"
  runtime_what (send_failed e) = codes "send() error: " ++ strerror e
  runtime_what send_closed = codes "send() error: connection closed by peer"
  runtime_what (recv_failed e) = codes "recv() error: " ++ strerror e
  runtime_what recv_closed = codes "recv() error: connection closed by peer"

  -- The type and the text of a line of the client.
  unfoldable pub line_text : Client → Line → MessageType × List ℕ
  unfolding what runtime_what
  line_text c connected = (
    k_info,
    codes "Connected! (server: "
        ++ (c.server_host ++ (codes ":" ++ (to_string c.server_port ++ codes ")"))),
  )
  line_text c authenticated = (k_info, codes "Authentication was successful!")
  line_text c image_sent = (k_info, codes "Image sent to server.")
  line_text c (runtime_error e) = (k_error, runtime_what e)
  line_text c (grabber_error e) = (k_warning, what e)
