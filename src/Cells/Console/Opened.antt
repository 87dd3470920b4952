-- ===== src/Cells/Console/Opened.antt =====
-- extensions/cells.ts: a launch that does not fail leaves a recorded console.
use pi_ipython.Common.{
  Text, text, true, Option, none, some, List, [], ◌∷◌, is_some, ◌≡◌, arith, inl, inr, Bool-cases,
  Option-cases,
}
use pi_ipython.Protocol.{JsonValue}
use pi_ipython.Persistence.Settings.{Outcome-split, returns}
use pi_ipython.Cells.Console.{Outside, Console, Action, and_then, as_id, member, herdr}
use pi_ipython.Cells.Console.Panes.{
  record_pane, move_beside, move_pane, launch_pane, try_launch, or_close, and_close_tab,
  launch_in_tab, launch_beside, launch_from, open_pane,
}

-- A chain that returns has a first step that returned, and a rest that did.
pub and_then-returns {ℓ κ} :
    {S : Type ℓ} {A B : Type κ} (first : Action S A) (next : A → Action S B) (c c' : Console S)
    (b : B)
    → and_then first next c ≡ (returns b, c')
    → (a : A) × (c1 : Console S) × (first c ≡ (returns a, c1)) × (next a c1 ≡ (returns b, c'))
unfolding and_then
and_then-returns first next c c' b h = elim (Outcome-split (first c).0) [
  | inl (e, f) ↦ ground arith
  | inr (a, f) ↦ (a, (first c).1, ground arith, ground arith)
]

-- The console is recorded for this connection file.
abbrev pub IsOpen {ℓ} : {S : Type ℓ} → Text → Console S → Type 0
IsOpen file c = (is_some c.pane_id ≡ true) × (c.connection_file ≡ some file)

module _ {ℓ} {S : Type ℓ} (o : Outside S) (command cwd file : Text) where
  pub herdr-keeps :
      (noun verb : Text) (words : List Text) (c : Console S)
      → ((herdr o noun verb words c).1.pane_id ≡ c.pane_id)
        × ((herdr o noun verb words c).1.connection_file ≡ c.connection_file)
  unfolding herdr
  herdr-keeps noun verb words c = ground arith

  record_pane-IsOpen :
      (moved : Option JsonValue) (c c1 : Console S)
      → record_pane o file moved c ≡ (returns tt, c1)
      → IsOpen file c1
  record_pane-IsOpen moved c c1 h = ground arith

  move_beside-IsOpen :
      (pane tab target : Text) (c c1 : Console S)
      → move_beside o pane tab target file c ≡ (returns tt, c1)
      → IsOpen file c1
  unfolding move_beside
  move_beside-IsOpen pane tab target c c1 h =
      let (moved, c2, f, g) = and_then-returns _ _ c c1 tt h in record_pane-IsOpen moved c2 c1 g

  move_pane-IsOpen :
      (pane tab target : Text) (c c1 : Console S)
      → move_pane o pane tab target file c ≡ (returns tt, c1)
      → IsOpen file c1
  unfolding move_pane
  move_pane-IsOpen pane tab target c c1 h = elim (Bool-cases (o.disposed c.outside)) [
    | inl d ↦ ground arith
    | inr d ↦ move_beside-IsOpen pane tab target c c1 (ground arith)
  ]

  launch_pane-IsOpen :
      (pane tab target : Text) (c c1 : Console S)
      → launch_pane o command pane tab target file c ≡ (returns tt, c1)
      → IsOpen file c1
  unfolding launch_pane
  launch_pane-IsOpen pane tab target c c1 h =
      let (a, c2, f, g) = and_then-returns _ _ (record c { pane_id = some pane }) c1 tt h in
      let (b, c3, f2, g2) = and_then-returns _ _ c2 c1 tt g in
      let (d, c4, f3, g3) = and_then-returns _ _ c3 c1 tt g2 in
      move_pane-IsOpen pane tab target c4 c1 g3

  try_launch-IsOpen :
      (staging : Option JsonValue) (tab target : Text) (c c1 : Console S)
      → try_launch o command staging tab target file c ≡ (returns tt, c1)
      → IsOpen file c1
  unfolding try_launch
  try_launch-IsOpen staging tab target c c1 h =
      elim (Option-cases (as_id (member (text "pane_id") (member (text "root_pane") staging)))) [
        | inl e ↦ ground arith
        | inr (pane, e) ↦ launch_pane-IsOpen pane tab target c c1 (ground arith)
      ]

  launch_in_tab-IsOpen :
      (id : Text) (staging : Option JsonValue) (tab target : Text) (c c1 : Console S)
      → launch_in_tab o command id staging tab target file c ≡ (returns tt, c1)
      → IsOpen file c1
  unfolding launch_in_tab and_close_tab or_close
  launch_in_tab-IsOpen id staging tab target c c1 h =
      let tried = try_launch o command staging tab target file c in
      let attempt = or_close o (try_launch o command staging tab target file) c in
      let (a, c2, f, g) = and_then-returns _ (λ _ c2. (attempt.0, c2)) attempt.1 c1 tt h in
      let kept = herdr-keeps (text "tab") (text "close") (id ∷ []) attempt.1 in
      elim (Outcome-split tried.0) [
        | inl (e, t) ↦ ground arith
        | inr (u, t) ↦
            let open_now = try_launch-IsOpen staging tab target c tried.1 (ground arith) in
            ground arith
      ]

  launch_beside-IsOpen :
      (staging : Option JsonValue) (pane tab : Text) (c c1 : Console S)
      → launch_beside o command file pane tab cwd staging c ≡ (returns tt, c1)
      → IsOpen file c1
  unfolding launch_beside
  launch_beside-IsOpen staging pane tab c c1 h =
      elim (Option-cases (as_id (member (text "tab_id") (member (text "tab") staging)))) [
        | inl e ↦ ground arith
        | inr (id, e) ↦ launch_in_tab-IsOpen id staging tab pane c c1 (ground arith)
      ]

  launch_from-IsOpen :
      (pane tab workspace : Option Text) (c c1 : Console S)
      → launch_from o command cwd file pane tab workspace c ≡ (returns tt, c1)
      → IsOpen file c1
  unfolding launch_from
  launch_from-IsOpen (some pane) (some tab) (some workspace) c c1 h =
      let (staging, c2, f, g) = and_then-returns _ _ c c1 tt h in
      launch_beside-IsOpen staging pane tab c2 c1 g
  launch_from-IsOpen none tab workspace c c1 h = ground arith
  launch_from-IsOpen (some pane) none workspace c c1 h = ground arith
  launch_from-IsOpen (some pane) (some tab) none c c1 h = ground arith

  pub open_pane-IsOpen :
      (c c1 : Console S) → open_pane o command cwd file c ≡ (returns tt, c1) → IsOpen file c1
  unfolding open_pane
  open_pane-IsOpen c c1 h =
      let (a, c2, f, g) = and_then-returns _ _ c c1 tt h in
      let (current, c3, f2, g2) = and_then-returns _ _ c2 c1 tt g in
      launch_from-IsOpen _ _ _ c3 c1 g2
