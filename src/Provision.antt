-- ===== src/Provision.antt =====
-- core/python.ts: `syncEnvironment`. A run of uv is an interface: its arguments, and whether it fails.
mod Tests
use pi_ipython.Common.{
  Text, text, Bool, true, false, List, [], ◌∷◌, ◌++◌, if◌then◌else◌, ◌≡◌, ◌⊎◌, ◌↔◌, refl, arith,
  Bool-cases, inl, inr,
}
use pi_ipython.Persistence.Settings.{Outcome, Outcome-split, returns, throws}

-- `uv` on a state of its own, and the state of the caller's signal.
pub record Uv {ℓ} (S : Type ℓ) : Type ℓ where
  pub run : List Text → S → Outcome (Unit {0}) × S
  pub aborted : S → Bool

abbrev pub cancelled : Text
cancelled = text "Python environment provisioning cancelled"

-- The arguments of a sync of the project in this directory, and of its check.
abbrev pub sync_arguments : Text → List Text
sync_arguments core_dir =
    text "sync"
    ∷ text "--locked"
    ∷ text "--inexact"
    ∷ text "--no-config"
    ∷ text "--managed-python"
    ∷ text "--project"
    ∷ core_dir
    ∷ []

abbrev pub check_arguments : Text → List Text
check_arguments core_dir =
    sync_arguments core_dir
    ++ (text "--check" ∷ text "--offline" ∷ text "--no-cache" ∷ text "--quiet" ∷ [])

abbrev pub sync_failed : Text → Text
sync_failed message = text "Failed to provision the Python environment with uv:\n" ++ message

module _ {ℓ} {S : Type ℓ} (uv : Uv S) (core_dir : Text) where
  -- The second `try`.
  unfoldable pub sync : S → Outcome (Unit {0}) × S
  sync s =
      let (o, s1) = uv.run (sync_arguments core_dir) s in
      elim o [
        | returns u ↦ (returns tt, s1)
        | throws e ↦ (throws (if uv.aborted s1 then cancelled else sync_failed e), s1)
      ]

  unfoldable pub sync_environment : S → Outcome (Unit {0}) × S
  sync_environment s =
      let (o, s1) = uv.run (check_arguments core_dir) s in
      let synced = sync s1 in
      elim o [
        | returns u ↦ (returns tt, s1)
        | throws e ↦ if uv.aborted s1 then (throws cancelled, s1) else synced
      ]

  -- The environment is reported ready exactly if the offline check passes, or the call is not cancelled
  -- by the end of the check and the sync that follows passes; the check alone runs where it passes.
  pub sync_environment_iff :
      (s s' : S)
      → (sync_environment s ≡ (returns tt, s')) ↔ (
          (uv.run (check_arguments core_dir) s ≡ (returns tt, s'))
          ⊎ ((e : Text) × ((uv.run (check_arguments core_dir) s).0 ≡ throws e)
              × (uv.aborted (uv.run (check_arguments core_dir) s).1 ≡ false)
              × (uv.run (sync_arguments core_dir) (uv.run (check_arguments core_dir) s).1
                  ≡ (returns tt, s'))))
  unfolding sync_environment sync
  sync_environment_iff s s' =
      let checked = uv.run (check_arguments core_dir) s in
      let synced = uv.run (sync_arguments core_dir) checked.1 in
      elim (Outcome-split checked.0) [
        | inr (u, e) ↦ (
          (λ h. inl (ground arith)),
          (λ p. elim p [ inl q ↦ ground arith | inr (x, f, a, r) ↦ ground arith ]),
        )
        | inl (x, e) ↦ elim (Bool-cases (uv.aborted checked.1)) [
          | inl a ↦ (
            (λ h. ground arith),
            (λ p. elim p [ inl q ↦ ground arith | inr (y, f, b, r) ↦ ground arith ]),
          )
          | inr a ↦ (
            (λ h. inr (x, e, a, ground arith)),
            (λ p. elim p [ inl q ↦ ground arith | inr (y, f, b, r) ↦ ground arith ]),
          )
        ]
      ]
