-- ===== src/Server/Lines.antt =====
-- server.cc: the text of what is thrown, and of the lines that are printed.
use cpp_remote_screen_captur.Base.{ℕ, List, ◌++◌}
use cpp_remote_screen_captur.Base.Bytes.{codes}
use cpp_remote_screen_captur.Logger.{MessageType, k_info, k_error, k_warning}
use cpp_remote_screen_captur.Session.State.{Errno}
use cpp_remote_screen_captur.Session.Lines.{what}
use cpp_remote_screen_captur.Server.State.{
  ServerError, session_error, socket_failed, reuse_addr_failed, bind_failed, listen_failed,
  epoll_create_failed, epoll_ctl_failed, epoll_wait_failed, ServerLine, no_reuse_port,
  no_keep_alive, accept_error, add_error, inet_ntop_failed, waiting, new_connection,
  close_connection, run_error,
}

module _ (strerror : Errno → List ℕ) where
  -- `std::runtime_error::what`.
  unfoldable pub server_what : ServerError → List ℕ
  server_what (socket_failed e) = codes "socket(): " ++ strerror e
  server_what (reuse_addr_failed e) = codes "setsockopt(): SO_REUSEADDR failed: " ++ strerror e
  server_what (bind_failed e) = codes "bind(): " ++ strerror e
  server_what (listen_failed e) = codes "listen(): " ++ strerror e
  server_what (epoll_create_failed e) = codes "epoll_create1(): " ++ strerror e
  server_what (epoll_ctl_failed e) = codes "epoll_ctl(): " ++ strerror e
  server_what (epoll_wait_failed e) = codes "epoll_wait(): " ++ strerror e
  server_what (session_error e) = what e

  -- The type and the text of a line of the server.
  unfoldable pub server_line_text : ServerLine → MessageType × List ℕ
  unfolding server_what
  server_line_text (no_reuse_port e) =
      (k_warning, codes "setsockopt(): SO_REUSEPORT not supported: " ++ strerror e)
  server_line_text (no_keep_alive e) =
      (k_warning, codes "setsockopt(): SO_KEEPALIVE not supported: " ++ strerror e)
  server_line_text (accept_error e) = (k_warning, codes "accept() error: " ++ strerror e)
  server_line_text (add_error e) = (k_warning, codes "epoll_ctl() error: " ++ strerror e)
  server_line_text inet_ntop_failed = (k_warning, codes "inet_ntop() failed")
  server_line_text waiting = (k_info, codes "Waiting...")
  server_line_text (new_connection host port) =
      (k_info, codes "New connection! (client: " ++ (host ++ (codes ":" ++ (port ++ codes ")"))))
  server_line_text (close_connection host port) =
      (k_info, codes "Close connection. (client: " ++ (host ++ (codes ":" ++ (port ++ codes ")"))))
  server_line_text (run_error e) = (k_error, server_what e)
