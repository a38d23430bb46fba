-- ===== src/Server.antt =====
-- server/src/server: the epoll server and its table of sessions.
pub mod State
pub mod Handlers
pub mod Connections
pub mod Run
pub mod Invariant
pub mod Events
pub mod Service
pub mod History
pub mod Isolation
pub mod Loops
pub mod Starts
pub mod Arrivals
pub mod Fronts
pub mod Images
pub mod Interleaving
pub mod Answers
pub mod Requests
pub mod Gallery
pub mod Stuck
pub mod Unnamed
pub mod Stopping
pub mod Lines
