-- ===== src/Tests.antt =====
-- Runs of the code at concrete inputs.
pub mod Fixture
mod Tables
mod Frames
mod Streams
mod Files
mod Tunnels
mod Session
mod Pasv
mod Connect
mod Redir
mod Handler
mod Restart
