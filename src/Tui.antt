-- ===== src/Tui.antt =====
-- The terminal application, packages/tui/src.
pub mod PaneManager
pub mod Keys
pub mod CommandPalette
pub mod CommandBar
pub mod Sidebar
pub mod Toast
pub mod App
