-- ===== src/Persistence.antt =====
-- core/persistence.ts: whether checkpoints are on, what a restore reports, and when the namespace is
-- saved and restored.
pub mod Summary
pub mod Settings
pub mod Checkpoints
pub mod Runtime
mod Tests
