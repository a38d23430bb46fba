-- ===== src/Client.antt =====
-- client/src/client: the client that connects, authenticates and sends screenshots.
pub mod Messages
pub mod Socket
pub mod Transfer
pub mod State
pub mod Loop
pub mod Traffic
pub mod Whole
pub mod Runs
pub mod Setup
pub mod Lines
pub mod Stopping
