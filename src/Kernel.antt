-- ===== src/Kernel.antt =====
-- core/kernel-runtime.ts: the class `KernelRuntime` as a state machine. Each function is what runs
-- between two awaits; promises, timers and listeners are events that call such a function.
pub mod State
pub mod Lines
pub mod Requests
pub mod Lifecycle
pub mod Events
pub mod Loss
pub mod Capture
pub mod Invariant
pub mod Settlement
mod Tests
