-- ===== src/Kernel/Invariant.antt =====
-- A well-formed runtime, and that every event keeps it so.
pub mod Effects
pub mod Startup
pub mod Handlers
pub mod Requests
pub mod Ends
pub mod Steps
use pi_ipython.Common.{
  ℕ, ◌≤◌, ◌<◌, Text, Bool, true, false, not, ◌&&◌, Option, none, some, List, [], ◌∷◌, is_some,
  length, All, ◌≡◌,
}
use pi_ipython.Common.Utf8.{byte_length}
use pi_ipython.Kernel.State.{
  output_capture_limit_bytes, image_limit, image_limit_bytes, Interrupt, Active, Effect, signalled,
  Kernel,
}
use pi_ipython.Kernel.Lines.{is_absolute, total_length}

-- A process group that may be signalled: 0 would be the runtime's own, and 1 every process.
abbrev pub IsGroup : Option ℕ → Type 0
IsGroup none = Unit
IsGroup (some pgid) = 1 < pgid

abbrev pub IsSeenGroup : Option (Option ℕ) → Type 0
IsSeenGroup none = Unit
IsSeenGroup (some pgid) = IsGroup pgid

abbrev pub IsFile : Option Text → Type 0
IsFile none = Unit
IsFile (some path) = is_absolute path ≡ true

abbrev pub IsCaptured : Option Interrupt → Text → Type 0
IsCaptured none output = byte_length output ≤ output_capture_limit_bytes
IsCaptured (some i) output = Unit

-- An active request: its images are within the limits, and so is its output until it is interrupted.
abbrev pub IsActive : Option Active → ℕ → Type 0
IsActive none next = Unit
IsActive (some a) next =
    (a.serial < next)
    × (length a.images ≤ image_limit)
    × (total_length a.images ≤ image_limit_bytes)
    × IsCaptured a.interrupt a.output

abbrev pub IsEffect : Effect → Type 0
IsEffect (Effect.signalled pgid signal) = 1 < pgid
IsEffect _ = Unit

abbrev pub IsTimed : ℕ → Type 0
IsTimed pgid = 1 < pgid

pub record IsValid (k : Kernel) : Type 0 where
  pub ready_child : (k.ready && not (is_some k.child)) ≡ false
  pub group : IsGroup k.kernel_pgid
  pub stopping_group : IsSeenGroup k.terminating
  pub closing_group : IsSeenGroup k.closing
  pub file : IsFile k.connection_file
  pub request : IsActive k.active k.next_serial
  pub timers : All IsTimed k.group_timers
  pub effects : All IsEffect k.log
