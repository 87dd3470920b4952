-- ===== src/Cells/Console/Panes.antt =====
-- extensions/cells.ts: `togglePane`, which closes the console's pane or opens one.
use pi_ipython.Common.{
  Text, text, Bool, true, false, not, ◌&&◌, Option, none, some, [], ◌∷◌, ◌++◌, if◌then◌else◌,
}
use pi_ipython.Protocol.{JsonValue}
use pi_ipython.Persistence.Settings.{Outcome, returns, throws}
use pi_ipython.Cells.Console.{
  Outside, Console, is_truthy, Action, and_then, member, as_id, same_file, herdr, close_pane,
}

module _ {ℓ} {S : Type ℓ} (o : Outside S) where
  abbrev pub no_moved_pane : Text
  no_moved_pane = text "Herdr did not return the moved pane ID."

  abbrev pub record_pane : Text → Option JsonValue → Action S (Unit {0})
  record_pane file moved c =
      elim (as_id
        (member (text "pane_id") (member (text "pane") (member (text "move_result") moved)))) [
          | none ↦ (throws no_moved_pane, c)
          | some id ↦ (returns tt, record c { pane_id = some id; connection_file = some file })
        ]

  unfoldable pub move_beside : Text → Text → Text → Text → Action S (Unit {0})
  move_beside pane target_tab target_pane file =
      and_then
        (herdr o (text "pane") (text "move") (
          pane
          ∷ text "--tab"
          ∷ target_tab
          ∷ text "--split"
          ∷ text "right"
          ∷ text "--target-pane"
          ∷ target_pane
          ∷ text "--no-focus"
          ∷ []))
        (record_pane file)

  -- The launch waits for the console's prompt, then moves the pane beside the caller's.
  unfoldable pub move_pane : Text → Text → Text → Text → Action S (Unit {0})
  move_pane pane target_tab target_pane file c =
      let moved = move_beside pane target_tab target_pane file c in
      if o.disposed c.outside then (throws (text "IPython viewer startup cancelled"), c) else moved

  -- The `try` block of `togglePane` from the new pane on.
  unfoldable pub launch_pane : Text → Text → Text → Text → Text → Action S (Unit {0})
  launch_pane command pane target_tab target_pane file c =
      and_then (herdr o (text "pane") (text "rename") (pane ∷ text "IPython console" ∷ []))
        (λ _.
          and_then
            (herdr o (text "pane") (text "run")
              (pane ∷ (text "printf '\\033[2J\\033[3J\\033[H'; " ++ command) ∷ []))
            (λ _.
              and_then
                (herdr o (text "pane") (text "wait-output") (
                  pane
                  ∷ text "--source"
                  ∷ text "visible"
                  ∷ text "--regex"
                  ∷ text "In \\[\\d*\\]:"
                  ∷ text "--timeout"
                  ∷ text "120000"
                  ∷ []))
                (λ _. move_pane pane target_tab target_pane file)))
        (record c { pane_id = some pane })

  -- The `try` block.
  unfoldable pub try_launch : Text → Option JsonValue → Text → Text → Text → Action S (Unit {0})
  try_launch command staging target_tab target_pane file c =
      elim (as_id (member (text "pane_id") (member (text "root_pane") staging))) [
        | none ↦ (throws (text "Herdr did not return a pane ID."), c)
        | some pane ↦ launch_pane command pane target_tab target_pane file c
      ]

  -- Its `catch` block: the pane is closed, whatever comes of that, and the error thrown again.
  unfoldable pub or_close : Action S (Unit {0}) → Action S (Unit {0})
  or_close attempt c =
      let (done, c1) = attempt c in
      let (closed, c2) = close_pane o c1 in
      elim done [ returns u ↦ (returns tt, c1) | throws e ↦ (throws e, c2) ]

  -- Its `finally` block, which closes the staging tab.
  unfoldable pub and_close_tab : Text → Action S (Unit {0}) → Action S (Unit {0})
  and_close_tab tab attempt c =
      let (done, c1) = attempt c in
      and_then (herdr o (text "tab") (text "close") (tab ∷ [])) (λ _ c2. (done, c2)) c1

  unfoldable pub launch_in_tab :
      Text → Text → Option JsonValue → Text → Text → Text → Action S (Unit {0})
  launch_in_tab command tab staging target_tab target_pane file =
      and_close_tab tab (or_close (try_launch command staging target_tab target_pane file))

  unfoldable pub close_found : Text → Text → Action S Bool
  close_found file id c =
      and_then (herdr o (text "pane") (text "get") (id ∷ []))
        (λ existing.
          and_then (close_pane o)
            (λ _ c1. (returns (is_truthy existing && same_file file c.connection_file), c1)))
        c

  -- A pane that is there is closed; is the toggle then done?
  unfoldable pub close_existing : Text → Action S Bool
  close_existing file c = elim c.pane_id [
    | none ↦ (returns false, c)
    | some id ↦ close_found file id c
  ]

  abbrev pub prepared : Action S (Unit {0})
  prepared c = let (done, s) = o.prepare c.outside in (done, record c { outside = s })

  abbrev pub id_of : Text → Option JsonValue → Option Text
  id_of name v = as_id (member name (member (text "pane") v))

  unfoldable pub launch_beside :
      Text → Text → Text → Text → Text → Option JsonValue → Action S (Unit {0})
  launch_beside command file pane tab cwd staging c =
      elim (as_id (member (text "tab_id") (member (text "tab") staging))) [
        | none ↦ (throws (text "Herdr did not return a tab ID."), c)
        | some staging_tab ↦ launch_in_tab command staging_tab staging tab pane file c
      ]

  -- The launch beside the calling pane, if Herdr names it.
  unfoldable pub launch_from :
      Text → Text → Text → Option Text → Option Text → Option Text → Action S (Unit {0})
  launch_from command cwd file (some pane) (some tab) (some workspace) c =
      and_then
        (herdr o (text "tab") (text "create") (
          text "--workspace"
          ∷ workspace
          ∷ text "--cwd"
          ∷ cwd
          ∷ text "--label"
          ∷ text "Starting IPython viewer"
          ∷ text "--no-focus"
          ∷ []))
        (launch_beside command file pane tab cwd) c
  launch_from command cwd file _ _ _ c = (throws (text "Herdr did not return the calling pane."), c)

  unfoldable pub open_pane : Text → Text → Text → Action S (Unit {0})
  open_pane command cwd file = and_then prepared (λ _.
      and_then (herdr o (text "pane") (text "current") (text "--current" ∷ [])) (λ current.
        launch_from command cwd file (id_of (text "pane_id") current)
          (id_of (text "tab_id") current) (id_of (text "workspace_id") current)))

  unfoldable pub unless_done : Text → Text → Text → Bool → Action S (Unit {0})
  unless_done command cwd file true c = (returns tt, c)
  unless_done command cwd file false c = open_pane command cwd file c

  -- `togglePane`. `command` is the console's command, and `file` the kernel's connection file.
  unfoldable pub toggle_pane : Text → Text → Text → Action S (Unit {0})
  toggle_pane command cwd file c =
      let toggled : Outcome (Unit {0}) × Console S = elim c.failure [
        | some e ↦ (throws (text "Cell history unavailable: " ++ e), c)
        | none ↦ and_then (close_existing file) (unless_done command cwd file) c
      ] in
      if o.disposed c.outside
      then (returns tt, c)
      else if not o.in_herdr
      then (throws (text "/cells requires a Herdr pane."), c)
      else toggled
