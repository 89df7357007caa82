-- ===== src/Tui/App.antt =====
-- packages/tui/src/app.ts: the terminal application over its parts.
--
-- The state is in App/State, what changes the panes and the sessions in App/Panes, the typed
-- commands in App/Commands, the keys in App/Input, and what comes from peers in App/Peers. Sessions
-- are any type with the operations of `ISession`; a pane holds the id of its session. The clock,
-- and the session that the engine has made or failed to make, are arguments. What is drawn is left
-- out.
pub mod State
pub mod Panes
pub mod Actions
pub mod Commands
pub mod Input
pub mod Peers
pub mod Upkeep
pub mod Isolation
pub mod Leaking
pub mod Echo
mod Tests
