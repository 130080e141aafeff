-- ===== src/Tests.antt =====
-- Runs at concrete inputs: a peer 1 at port 4001, an upload to it and a download from it.
pub mod Data
mod Sending
mod Download
mod Uploads
mod Format
mod Arrival
mod Files
mod Typing
mod Rounds
mod Whole
mod Relay
mod Exchange
mod Startup
