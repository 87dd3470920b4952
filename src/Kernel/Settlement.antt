-- ===== src/Kernel/Settlement.antt =====
-- Where a request of the runtime is: active, waiting for `terminate` to be rejected, or settled.
pub mod Handlers
pub mod Requests
pub mod Ends
pub mod Steps
use pi_ipython.Common.{
  ℕ, ◌+◌, Text, Option, none, some, List, [], ◌∷◌, ltb, ◌==◌, if◌then◌else◌, ◌≡◌,
}
use pi_ipython.Kernel.State.{Active, Effect, Kernel}

abbrev pub one_if : ℕ → ℕ → ℕ
one_if m n = if m == n then 1 else 0

-- Does an effect settle the request `n`?
abbrev pub settles : ℕ → Effect → ℕ
settles n (Effect.resolved m result) = one_if m n
settles n (Effect.rejected m message) = one_if m n
settles n _ = 0

-- How often the request `n` was settled.
pub settled : ℕ → List Effect → ℕ
settled n [] = 0
settled n (e ∷ log) = settles n e + settled n log

pub awaiting : ℕ → List (ℕ × Text) → ℕ
awaiting n [] = 0
awaiting n (l ∷ ls) = one_if l.0 n + awaiting n ls

abbrev pub is_active : ℕ → Option Active → ℕ
is_active n none = 0
is_active n (some a) = one_if a.serial n

-- In how many places the request `n` is.
abbrev pub places : ℕ → Kernel → ℕ
places n k = is_active n k.active + awaiting n k.lost + settled n k.log

-- A request that was made is in exactly one place, and one that was not is in none.
abbrev pub IsTracked : ℕ → Kernel → Type 0
IsTracked n k = places n k ≡ (if ltb n k.next_serial then 1 else 0)
