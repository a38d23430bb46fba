-- ===== src/Tests.antt =====
-- The theorems at concrete inputs.
mod Streams
mod Sessions
mod Clients
mod Conversations
mod Galleries
mod Runs
mod Servers
mod Parts
mod Screens
