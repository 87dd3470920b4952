-- ===== src/Persistence/Runtime.antt =====
-- core/persistence.ts: `createRuntime`, and the end of a runtime. The kernel is the interface of
-- Persistence/Checkpoints.
pub mod Chosen
use pi_ipython.Common.{
  ℕ, zero, suc, Text, text, Bool, true, false, not, ◌||◌, Option, none, some, List, [], ◌∷◌, ◌++◌,
  if◌then◌else◌, All, append_assoc, append-nil, ◌≡◌, refl, sym, ap, ◌∙◌, arith, Bool-cases, inl,
  inr,
}
use pi_ipython.Persistence.Settings.{
  Outcome, returns, throws, Files, Directory, persistence_enabled, in_scope, IsReadable,
  any_refuses, is_off, persistence_enabled-any_refuses,
}
use pi_ipython.Persistence.Checkpoints.{KernelApi, Checkpoints, run_save, run_saves, sync, save}

-- `process.env.XDG_CACHE_HOME || join(homedir(), ".cache")`.
abbrev pub cache_dir : Option Text → Text → Text
cache_dir none home = home ++ text "/.cache"
cache_dir (some []) home = home ++ text "/.cache"
cache_dir (some (c ∷ t)) home = c ∷ t

-- `checkpointBase`. `resolved` makes the directory and resolves it.
abbrev pub checkpoint_base : (Text → Outcome Text) → Option Text → Text → Outcome Text
checkpoint_base resolved variable home = resolved (cache_dir variable home)

-- `quote` is `JSON.stringify` of a string.
abbrev pub initialize_code : (Text → Text) → Text → Text
initialize_code quote base =
    text "__import__('pi_ipython_state').initialize(get_ipython(), " ++ (quote base ++ text ")")

-- What `createRuntime` makes: the kernel's own startup code, and the checkpoints.
pub record Runtime {ℓ} (S : Type ℓ) : Type ℓ where
  pub startup_code : List Text
  pub checkpoints : Checkpoints S

abbrev pub new_checkpoints {ℓ} : {S : Type ℓ} → S → Bool → Checkpoints S
new_checkpoints kernel enabled = record {
  kernel = kernel;
  enabled = enabled;
  save_failure = none;
  pending = [];
}

unfoldable pub runtime_with {ℓ} :
    {S : Type ℓ} → (Text → Text) → Outcome Text → S → Bool → Outcome (Runtime S)
runtime_with quote base kernel false =
    returns (record { startup_code = []; checkpoints = new_checkpoints kernel false })
runtime_with quote (throws e) kernel true = throws e
runtime_with quote (returns base) kernel true = returns (record {
  startup_code = initialize_code quote base ∷ [];
  checkpoints = new_checkpoints kernel true;
})

-- `createRuntime`. `base` is what `checkpointBase` gives, and `kernel` the state of a new kernel.
unfoldable pub create_runtime {ℓ} :
    {S : Type ℓ}
    → Files
    → (Text → Text)
    → Option Text
    → Directory
    → Outcome Text
    → S
    → Outcome (Runtime S)
create_runtime files quote variable cwd base kernel =
    elim (persistence_enabled files variable cwd) [
      | throws e ↦ throws e
      | returns enabled ↦ runtime_with quote base kernel enabled
    ]

-- The saves that are done and those that are not, when the timeout of `close` is over or the queue is empty.
abbrev pub take : ℕ → List Text → List Text
take zero ids = []
take (suc n) [] = []
take (suc n) (id ∷ ids) = id ∷ take n ids

abbrev pub drop : ℕ → List Text → List Text
drop zero ids = ids
drop (suc n) [] = []
drop (suc n) (id ∷ ids) = drop n ids

module _ {ℓ} {S : Type ℓ} (api : KernelApi S) (shutdown : S → Outcome (Unit {0}) × S) where
  -- `Checkpoints.close`, when it waits for `done` saves.
  unfoldable pub close_checkpoints : ℕ → Checkpoints S → Checkpoints S
  close_checkpoints done c = record (run_saves api (take done c.pending) c) {
    pending = drop done c.pending;
  }

  -- The runtime's `close`.
  unfoldable pub close_runtime : ℕ → Checkpoints S → Outcome (Unit {0}) × Checkpoints S
  close_runtime done c =
      let c1 = close_checkpoints done c in
      let (o, s) = shutdown c1.kernel in (o, record c1 { kernel = s })
