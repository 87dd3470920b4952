-- ===== src/Persistence/Checkpoints.antt =====
-- core/persistence.ts: the class `Checkpoints`. The kernel and its Python module are an interface.
pub mod Restores
pub mod Saves
use pi_ipython.Common.{
  ℕ, zero, suc, ◌+◌, Text, text, Bool, true, false, Option, none, some, List, [], ◌∷◌, ◌++◌,
  if◌then◌else◌, ◌==◌,
}
use pi_ipython.Protocol.{JsonValue, null, Number}
use pi_ipython.Persistence.Settings.{Outcome, returns, throws}
use pi_ipython.Persistence.Summary.{RestoreSummary, as_restore_summary, restore_notice}

-- What the class uses of a kernel in the state `S`: `start` and `generation` of `KernelRuntime`, and
-- `evaluate` of the calls `restore`, `accept` and `save` of pi_ipython_state. `aborted` is the state
-- of the caller's signal.
pub record KernelApi {ℓ} (S : Type ℓ) : Type ℓ where
  pub start : S → Outcome (Unit {0}) × S
  pub generation : S → ℕ
  pub restore : List Text → S → Outcome (Option JsonValue) × S
  pub accept : Option Text → S → S
  pub save : Text → S → Outcome (Option JsonValue) × S
  pub aborted : S → Bool
  pub shown : Number → Text

-- A `Checkpoints` object with the kernel that it works on. Its calls run one after the other, as its
-- promise `pending` makes them: a `sync` runs when the saves queued before it are done.
pub record Checkpoints {ℓ} (S : Type ℓ) : Type ℓ where
  pub kernel : S
  pub enabled : Bool
  pub save_failure : Option Text
  -- The saves that are queued on `pending` and have not run.
  pub pending : List Text

abbrev pub first : List Text → Option Text
first [] = none
first (t ∷ ts) = some t

abbrev pub restore_attempts : ℕ
restore_attempts = 3

abbrev pub invalid_summary : Text
invalid_summary = text "pi_ipython_state.restore returned an invalid summary"

abbrev pub killed_notice : Text
killed_notice =
    text
      "IPython checkpoint restore killed the kernel 3 times; continuing on a fresh kernel. The next call retries without the values that killed it."

abbrev pub failed_notice : Text → Text
failed_notice error =
    text "IPython checkpoint restore failed; continuing with the current namespace: " ++ error

abbrev pub save_failed : Text → Text
save_failed error = text "IPython checkpoint for the previous cell was not saved: " ++ error

-- `.filter((text) => text !== undefined)`, one item at a time.
abbrev pub defined : Option Text → List Text → List Text
defined none ts = ts
defined (some t) ts = t ∷ ts

module _ {ℓ} {S : Type ℓ} (api : KernelApi S) where
  -- The `catch` of `restore`.
  unfoldable pub on_restore_error : List Text → Text → S → Outcome (Option Text) × S
  on_restore_error candidates error s =
      if api.aborted s
      then (throws error, s)
      else (returns (some (failed_notice error)), api.accept (first candidates) s)

  unfoldable pub read_summary : List Text → Option JsonValue → S → Outcome (Option Text) × S
  read_summary candidates (some null) s = (returns none, s)
  read_summary candidates v s = elim (as_restore_summary v) [
    | none ↦ on_restore_error candidates invalid_summary s
    | some summary ↦ (returns (some (restore_notice api.shown summary)), s)
  ]

  -- `restore`.
  unfoldable pub restore : List Text → S → Outcome (Option Text) × S
  restore candidates s =
      let (o, s1) = api.restore candidates s in
      elim o [
        | returns v ↦ read_summary candidates v s1
        | throws e ↦ on_restore_error candidates e s1
      ]

  -- One turn of the loop of `restoreBranch`: no notice when the kernel was replaced meanwhile.
  unfoldable pub restore_attempt : List Text → S → Outcome (Option (Option Text)) × S
  restore_attempt candidates s =
      let (o, s1) = restore candidates s in
      elim o [
        | throws e ↦ (throws e, s1)
        | returns notice ↦
            let (started, s2) = api.start s1 in
            elim started [
              | throws e ↦ (throws e, s2)
              | returns _ ↦ (
                returns (if api.generation s2 == api.generation s then some notice else none),
                s2,
              )
            ]
      ]

  -- The loop of `restoreBranch`, with the number of attempts that are left.
  unfoldable pub restore_loop : ℕ → List Text → S → Outcome (Option Text) × S
  restore_loop zero candidates s = (returns (some killed_notice), s)
  restore_loop (suc left) candidates s =
      let (o, s1) = restore_attempt candidates s in
      elim o [
        | throws e ↦ (throws e, s1)
        | returns settled ↦ elim settled [
          | some notice ↦ (returns notice, s1)
          | none ↦ restore_loop left candidates s1
        ]
      ]

  -- `restoreBranch`.
  unfoldable pub restore_branch : List Text → Checkpoints S → Outcome (List Text) × Checkpoints S
  restore_branch candidates c =
      let (started, s1) = api.start c.kernel in
      elim started [
        | throws e ↦ (throws e, record c { kernel = s1 })
        | returns _ ↦
            let (o, s2) = restore_loop restore_attempts candidates s1 in
            elim o [
              | throws e ↦ (throws e, record c { kernel = s2 })
              | returns notice ↦ (
                returns (defined c.save_failure (defined notice [])),
                record c { kernel = s2; save_failure = none },
              )
            ]
      ]

  -- `call("save", [id])` and the handler of its rejection.
  unfoldable pub run_save : Text → Checkpoints S → Checkpoints S
  run_save id c =
      let (o, s1) = api.save id c.kernel in
      elim o [
        | returns _ ↦ record c { kernel = s1 }
        | throws e ↦ record c { kernel = s1; save_failure = some (save_failed e) }
      ]

  unfoldable pub run_saves : List Text → Checkpoints S → Checkpoints S
  run_saves [] c = c
  run_saves (id ∷ ids) c = run_saves ids (run_save id c)

  -- What `pending` waits for.
  unfoldable pub run_pending : Checkpoints S → Checkpoints S
  run_pending c = run_saves c.pending (record c { pending = [] })

  -- `sync`.
  unfoldable pub sync : List Text → Checkpoints S → Outcome (List Text) × Checkpoints S
  sync candidates c =
      if c.enabled then restore_branch candidates (run_pending c) else (returns [], c)

  -- `save`, given the UUID that it draws.
  unfoldable pub save : Text → Checkpoints S → Option Text × Checkpoints S
  save id c =
      if c.enabled then (some id, record c { pending = c.pending ++ (id ∷ []) }) else (none, c)
