-- ===== src/Cli/Terminal.antt =====
-- The `share` and `connect` commands, apps/cli/src/terminal.
pub mod Sockets
pub mod Guest
pub mod Host
pub mod Departure
