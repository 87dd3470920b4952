-- ===== src/Output.antt =====
-- core/output.ts: the text of a cell's output. Indices into the text are modelled by what is left
-- of it from that index on.
pub mod Ansi
pub mod Truncation
pub mod Report
mod Tests
