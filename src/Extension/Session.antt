-- ===== src/Extension/Session.antt =====
-- extensions/ipython.ts: the state of a session and what changes it: `getRuntime`, `toggleCells`, the
-- tool's `execute` and the end of the session. The kernel, its checkpoints and the console are an
-- interface.
pub mod Cells
pub mod Console
pub mod Answers
pub mod Lost
pub mod Record
pub mod Held
pub mod Shutdown
pub mod Balance
mod Tests
use pi_ipython.Common.{
  ℕ, suc, Text, text, text_eq, Bool, true, false, not, ◌&&◌, Option, none, some, List, [], ◌∷◌,
  ◌++◌, if◌then◌else◌, ◌==◌, join, concat,
}
use pi_ipython.Protocol.{Number, BridgeError, describe_error}
use pi_ipython.Persistence.Settings.{Outcome, returns, throws}
use pi_ipython.Cell.{Status, Execution, FigurePart, CellResult, CellReport}
use pi_ipython.Extension.{Entry, checkpoint_ids, Forwarded, on_kernel_lost, deliver, result_text}
use pi_ipython.Extension.Live.{
  Live, new_live, cleared, Report, progressed, printed, timer_over, on_reports,
}

-- How a call ends: with a value, with a `KernelLostError`, or with another error, as `String(error)`.
pub data Attempt {ℓ} (A : Type ℓ) : Type ℓ where
  done : A → Attempt A
  lost : Text → Attempt A
  failed : Text → Attempt A

-- What a session uses of a runtime `R` in the state `S`, and of the console: `checkpoints.sync` and
-- `save`, `kernel.execute`, `getConnectionFile` and `saveOutput`, `close`, `cells.toggle` and
-- `shutdown`. The reports of a call are what it gives to `progress` and `output`, with the timeouts
-- that are over meanwhile.
pub record Services {ℓ κ} (R : Type ℓ) (S : Type κ) : Type (ℓ ⊔ κ) where
  pub create : S → Outcome R × S
  pub sync : R → List Text → S → List Report × (Attempt (List Text) × S)
  pub execute : R → Text → Text → S → List Report × (Attempt Execution × S)
  pub connect : R → S → List Report × (Outcome Text × S)
  pub save_output : R → Text → S → Option (Text × S)
  pub save_error : Text
  pub save : R → S → Option Text × S
  -- `kernel.shutdown()`, whether it fails or not.
  pub stop : R → S → S
  pub close : R → S → Outcome (Unit {0}) × S
  pub toggle : Text → S → Outcome (Unit {0}) × S
  pub shutdown : S → Outcome (Unit {0}) × S
  -- `ctx.mode === "tui" && process.env.HERDR_ENV === "1"`.
  pub interactive : Bool
  pub shown : Number → Text

-- `runtime`, with the number of its listener on SIGTERM.
pub record Running {ℓ} (R : Type ℓ) : Type ℓ where
  pub runtime : R
  pub sigterm : ℕ

pub record Session {ℓ κ} (R : Type ℓ) (S : Type κ) : Type (ℓ ⊔ κ) where
  pub current : Option (Running R)
  pub undelivered : List Text
  pub forwarded : Forwarded
  -- The process's listeners on SIGTERM.
  pub listeners : List ℕ
  pub next_listener : ℕ
  pub services : S

-- A call of the transcript's methods.
pub data Said : Type 0 where
  begin output note finish : Text → Said

-- `IpythonDetails` of a result.
pub record Details : Type 0 where
  pub execution_count : Option Number
  pub kernel_reset : Bool
  pub truncated : Bool
  pub full_output_path : Option Text
  pub checkpoint : Option Text

-- What `execute` returns.
pub record Answer : Type 0 where
  pub text : Text
  pub figures : List FigurePart
  pub details : Details
  pub structured : CellResult
  pub is_error : Bool

unfoldable pub said_of : List Report → List Said
said_of [] = []
said_of (progressed now message ∷ rs) = note message ∷ said_of rs
said_of (printed now t ∷ rs) = output t ∷ said_of rs
said_of (timer_over id now ∷ rs) = said_of rs

module _ {ℓ κ} {R : Type ℓ} {S : Type κ} (api : Services R S) where
  unfoldable pub get_runtime : Session R S → Outcome R × Session R S
  get_runtime s = elim s.current [
    | some c ↦ (returns c.runtime, s)
    | none ↦
        let (created, sv) = api.create s.services in
        elim created [
          | throws e ↦ (throws e, record s { services = sv })
          | returns r ↦ (
            returns r,
            record s {
              current = some (record { runtime = r; sigterm = s.next_listener });
              listeners = s.next_listener ∷ s.listeners;
              next_listener = suc s.next_listener;
              services = sv;
            },
          )
        ]
  ]
