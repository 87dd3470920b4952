-- ===== src/Extension/Session/Console.antt =====
-- extensions/ipython.ts: `toggleCells` and the end of the session.
use pi_ipython.Common.{
  Bool, true, ◌&&◌, ℕ, Text, text, none, some, List, [], ◌∷◌, ◌++◌, if◌then◌else◌, ◌==◌,
}
use pi_ipython.Persistence.Settings.{Outcome, returns, throws}
use pi_ipython.Extension.{Entry, checkpoint_ids}
use pi_ipython.Extension.Live.{Report, progressed, printed, timer_over}
use pi_ipython.Extension.Session.{Running, done, lost, failed, Services, Session, get_runtime}

-- `ctx.ui.notify`.
pub data Notification : Type 0 where
  info warning error : Text → Notification

-- `progress` of `toggleCells`.
unfoldable pub infos_of : List Report → List Notification
infos_of [] = []
infos_of (progressed now message ∷ rs) = info message ∷ infos_of rs
infos_of (printed now t ∷ rs) = infos_of rs
infos_of (timer_over id now ∷ rs) = infos_of rs

-- `process.off`.
unfoldable pub off : ℕ → List ℕ → List ℕ
off id [] = []
off id (i ∷ rest) = let others = off id rest in if i == id then rest else i ∷ others

abbrev pub need_console : Text
need_console = text "/cells requires interactive Pi in Herdr."

-- `listeners.every((listener) => listener === sigterm)`.
unfoldable pub every_is : ℕ → List ℕ → Bool
every_is id [] = true
every_is id (i ∷ rest) = (i == id) && every_is id rest

module _ {ℓ κ} {R : Type ℓ} {S : Type κ} (api : Services R S) where
  -- The part of `toggleCells` after `checkpoints.sync`; `seen` are the notifications so far.
  unfoldable pub open_console :
      R → List Notification → Session R S → List Notification × Session R S
  open_console r seen s =
      let (connecting, (connected, sv)) = api.connect r s.services in
      let infos = seen ++ infos_of connecting in
      elim connected [
        | throws e ↦ (infos ++ error e ∷ [], record s { services = sv })
        | returns file ↦
            let (toggled, sv1) = api.toggle file sv in
            elim toggled [
              | returns _ ↦ (infos, record s { services = sv1 })
              | throws e ↦ (infos ++ error e ∷ [], record s { services = sv1 })
            ]
      ]

  unfoldable pub sync_console : List Entry → R → Session R S → List Notification × Session R S
  sync_console branch r s =
      let (syncing, (synced, sv)) = api.sync r (checkpoint_ids branch) s.services in
      let infos = infos_of syncing in
      let s1 = record s { services = sv } in
      elim synced [
        | done notices ↦ open_console r infos (record s1 { undelivered = s.undelivered ++ notices })
        | lost e ↦ (infos ++ error e ∷ [], s1)
        | failed e ↦ (infos ++ error e ∷ [], s1)
      ]

  -- The `try` of `toggleCells` and its `catch`, given what `getRuntime` gives.
  unfoldable pub toggle_on : List Entry → Outcome R → Session R S → List Notification × Session R S
  toggle_on branch (throws e) s = (error e ∷ [], s)
  toggle_on branch (returns r) s = sync_console branch r s

  -- `toggleCells`, with its notifications.
  unfoldable pub toggle_cells : List Entry → Session R S → List Notification × Session R S
  toggle_cells branch s =
      let (created, s1) = get_runtime api s in
      let toggled = toggle_on branch created s1 in
      if api.interactive then toggled else (warning need_console ∷ [], s)

  -- The listener on SIGTERM of a runtime. It was set for one call, so it is off when it runs. The
  -- first result says whether it sends the process another SIGTERM.
  unfoldable pub on_sigterm : Running R → Session R S → Bool × Session R S
  on_sigterm c s =
      let others = off c.sigterm s.listeners in
      let owns_exit = every_is c.sigterm others in
      (
        owns_exit,
        record s {
          listeners = if owns_exit then off c.sigterm others else others;
          services = api.stop c.runtime s.services;
        },
      )

  -- The handler of `session_shutdown`.
  unfoldable pub session_shutdown : Session R S → Outcome (Unit {0}) × Session R S
  session_shutdown s =
      let s1 = record s { current = none; forwarded = [] } in
      elim s.current [
        | none ↦ let (o, sv) = api.shutdown s.services in (o, record s1 { services = sv })
        | some c ↦
            let (closed, sv) = api.close c.runtime s.services in
            let (o, sv1) = api.shutdown sv in
            (
              elim o [ returns _ ↦ closed | throws e ↦ throws e ],
              record s1 { listeners = off c.sigterm s.listeners; services = sv1 },
            )
      ]
