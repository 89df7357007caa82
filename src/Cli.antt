-- ===== src/Cli.antt =====
-- The command-line application, apps/cli/src.
pub mod Policy
pub mod Terminal
