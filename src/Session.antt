-- ===== src/Session.antt =====
-- server/src/server/session: one client's session. State and the functions come first
-- (State, Buffer, Parser, Auth, Socket, Files), and what is proved of them stands behind.
pub mod State
pub mod Buffer
pub mod Parser
pub mod Socket
pub mod Auth
pub mod Files
pub mod Framing
pub mod Chunks
pub mod Keeps
pub mod Transfer
pub mod Handled
pub mod AuthLaws
pub mod AuthSound
pub mod AuthDecides
pub mod Sending
pub mod Halting
pub mod Paths
pub mod Escapes
pub mod Lines
