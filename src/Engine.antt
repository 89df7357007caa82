-- ===== src/Engine.antt =====
-- The execution engine, packages/engine/src.
pub mod Session
pub mod RemoteSession
pub mod ExecutionEngine
