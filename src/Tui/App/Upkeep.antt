-- ===== src/Tui/App/Upkeep.antt =====
-- packages/tui/src/app.ts: the panes stay in order, whatever is typed. The panes' actions are in
-- Upkeep/Actions, the commands in Upkeep/Commands, the keys in Upkeep/Typing.
pub mod Actions
pub mod Commands
pub mod Typing
