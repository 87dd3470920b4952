-- ===== src/Persistence/Checkpoints/Saves.antt =====
-- core/persistence.ts: how the failure of a save reaches the model.
use pi_ipython.Common.{Text, true, none, some, List, [], ◌≡◌, arith}
use pi_ipython.Persistence.Settings.{Outcome, returns, throws}
use pi_ipython.Persistence.Checkpoints.{
  KernelApi, Checkpoints, first, save_failed, run_save, run_saves, run_pending, restore_branch,
  sync, save,
}

-- The failure `e` of a save is the first notice, and is then forgotten, or it is kept for a later call.
pub IsTold {ℓ} : {S : Type ℓ} → Text → Outcome (List Text) × Checkpoints S → Type 0
IsTold e (returns notices, c) = (first notices ≡ some (save_failed e)) × (c.save_failure ≡ none)
IsTold e (throws x, c) = c.save_failure ≡ some (save_failed e)

restore_branch-IsTold {ℓ} :
    {S : Type ℓ}
    → (api : KernelApi S) (candidates : List Text) (e : Text) (c : Checkpoints S)
    → c.save_failure ≡ some (save_failed e)
    → IsTold e (restore_branch api candidates c)
unfolding restore_branch IsTold
restore_branch-IsTold api candidates e c h = ground arith

-- When checkpoints are on and nothing is queued, a save that fails is told by the next `sync`, as its
-- first notice; when that `sync` throws, the failure is kept for the one after it.
pub failed_save-IsTold {ℓ} :
    {S : Type ℓ}
    → (api : KernelApi S) (candidates : List Text) (id e : Text) (c : Checkpoints S)
    → c.enabled ≡ true
    → c.pending ≡ []
    → (api.save id c.kernel).0 ≡ throws e
    → IsTold e (sync api candidates (save api id c).1)
unfolding sync save run_pending run_saves run_save
failed_save-IsTold api candidates id e c on empty failed =
    rw (on, empty) (restore_branch-IsTold api candidates e _ (ground arith))
