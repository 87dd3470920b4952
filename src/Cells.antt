-- ===== src/Cells.antt =====
-- extensions/cells.ts: the transcript of the cells, and the console that shows it.
pub mod Transcript
pub mod Shell
pub mod Console
mod Tests
