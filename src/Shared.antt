-- ===== src/Shared.antt =====
-- Promises that several callers share: core/kernel-runtime.ts, `ensureRuntime`, whose promise stays
-- once it is fulfilled, and extensions/cells.ts, `toggle`, whose promise goes when it is settled.
pub mod Fair
mod Tests
use pi_ipython.Common.{
  ℕ, zero, suc, Text, Bool, true, false, Option, none, some, List, [], ◌∷◌, ◌++◌, if◌then◌else◌,
}
use pi_ipython.Persistence.Settings.{Outcome, returns, throws}

-- `this.provisioning` or `this.toggling`.
pub data Promised : Type 0 where
  absent : Promised
  running : Promised
  settled : Outcome (Unit {0}) → Promised

-- The field, the callers that wait for it, the answers that callers had, and how often the shared work
-- was started.
pub record Shared : Type 0 where
  pub promise : Promised
  pub waiting : List ℕ
  pub answered : List (ℕ × Outcome (Unit {0}))
  pub runs : ℕ

unfoldable pub new_shared : Shared
new_shared = record { promise = absent; waiting = []; answered = []; runs = 0 }

unfoldable pub answer_all : Outcome (Unit {0}) → List ℕ → List (ℕ × Outcome (Unit {0}))
answer_all o [] = []
answer_all o (caller ∷ callers) = (caller, o) ∷ answer_all o callers

-- A call: it starts the work if there is no promise, and waits for the promise.
unfoldable pub on_call : ℕ → Shared → Shared
on_call caller s = elim s.promise [
  | absent ↦ record s { promise = running; waiting = s.waiting ++ caller ∷ []; runs = suc s.runs }
  | running ↦ record s { waiting = s.waiting ++ caller ∷ [] }
  | settled o ↦ record s { answered = s.answered ++ (caller, o) ∷ [] }
]

-- The work ends. `keeps` says whether the field keeps a promise with this outcome.
unfoldable pub on_settle : (Outcome (Unit {0}) → Bool) → Outcome (Unit {0}) → Shared → Shared
on_settle keeps o s = elim s.promise [
  | absent ↦ s
  | running ↦ record s {
    promise = if keeps o then settled o else absent;
    waiting = [];
    answered = s.answered ++ answer_all o s.waiting;
  }
  | settled p ↦ s
]

-- The `catch` of `ensureRuntime`, and the `finally` of `toggle`.
unfoldable pub keeps_success : Outcome (Unit {0}) → Bool
keeps_success (returns u) = true
keeps_success (throws e) = false

unfoldable pub keeps_nothing : Outcome (Unit {0}) → Bool
keeps_nothing o = false

pub data Step : Type 0 where
  calls : ℕ → Step
  settles : Outcome (Unit {0}) → Step

unfoldable pub step : (Outcome (Unit {0}) → Bool) → Step → Shared → Shared
step keeps (calls caller) s = on_call caller s
step keeps (settles o) s = on_settle keeps o s

unfoldable pub run : (Outcome (Unit {0}) → Bool) → List Step → Shared → Shared
run keeps [] s = s
run keeps (x ∷ xs) s = run keeps xs (step keeps x s)
