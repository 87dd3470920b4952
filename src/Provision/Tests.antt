-- ===== src/Provision/Tests.antt =====
-- A concrete uv.
use pi_ipython.Common.{ℕ, zero, suc, Text, text, false, ◌≡◌, ◌⊎◌, ◌↔◌}
use pi_ipython.Persistence.Settings.{Outcome, returns, throws}
use pi_ipython.Provision.{
  Uv, check_arguments, sync_arguments, sync_environment, sync_environment_iff,
}

-- The first run fails, and the others pass.
abbrev first_fails : ℕ → Outcome (Unit {0})
first_fails zero = throws (text "drift")
first_fails (suc n) = returns tt

abbrev uv : Uv ℕ
uv = record { run = λ arguments n. (first_fails n, suc n); aborted = λ n. false }

sync_environment_iff_example : (sync_environment uv (text "/core") 0 ≡ (returns tt, 2)) ↔ (
    (uv.run (check_arguments (text "/core")) 0 ≡ (returns tt, 2))
    ⊎ ((e : Text) × ((uv.run (check_arguments (text "/core")) 0).0 ≡ throws e)
        × (uv.aborted (uv.run (check_arguments (text "/core")) 0).1 ≡ false)
        × (uv.run (sync_arguments (text "/core")) (uv.run (check_arguments (text "/core")) 0).1
            ≡ (returns tt, 2))))
sync_environment_iff_example = sync_environment_iff uv (text "/core") 0 2
