-- ===== src/Cells/Console/Launch.antt =====
-- extensions/cells.ts: what a toggle of the console leaves.
use pi_ipython.Common.{
  Text, text, Bool, true, false, Option, none, some, [], ◌∷◌, is_some, ◌≡◌, ◌⊎◌, ◌&&◌, arith, inl,
  inr, Option-cases,
}
use pi_ipython.Protocol.{JsonValue}
use pi_ipython.Persistence.Settings.{returns}
use pi_ipython.Cells.Console.{Outside, Console, is_truthy, herdr, close_pane, same_file}
use pi_ipython.Cells.Console.Opened.{and_then-returns, IsOpen}
use pi_ipython.Cells.Console.Panes.{open_pane}

-- `closePane` has returned for the recorded pane, which Herdr was asked for first, and no pane is
-- recorded. `there` says whether Herdr has the pane and it shows this connection file.
abbrev pub IsClosed {ℓ} : {S : Type ℓ} → Outside S → Text → Bool → Console S → Console S → Type ℓ
IsClosed o file there c c1 =
    (id : Text) × (existing : Option JsonValue) × (c.pane_id ≡ some id)
    × ((herdr o (text "pane") (text "get") (id ∷ []) c).0 ≡ returns existing)
    × ((is_truthy existing && same_file file c.connection_file) ≡ there)
    × (close_pane o (herdr o (text "pane") (text "get") (id ∷ []) c).1 ≡ (returns tt, c1))
    × (c1.pane_id ≡ none)
    × (c1.connection_file ≡ none)

-- A console was launched for this connection file, from a state without a pane: none was recorded,
-- or it was closed.
abbrev pub IsLaunched {ℓ} :
    {S : Type ℓ} → Outside S → Text → Text → Text → Console S → Console S → Type ℓ
IsLaunched {S} o command cwd file c c1 =
    (c2 : Console S) × (((c.pane_id ≡ none) × (c ≡ c2)) ⊎ IsClosed o file false c c2)
    × (open_pane o command cwd file c2 ≡ (returns tt, c1))
    × IsOpen file c1

module _ {ℓ} {S : Type ℓ} (o : Outside S) (command cwd file : Text) where
  pub close_pane-none :
      (c c1 : Console S)
      → close_pane o c ≡ (returns tt, c1)
      → is_some c.pane_id ≡ true
      → (c1.pane_id ≡ none) × (c1.connection_file ≡ none)
  unfolding close_pane
  close_pane-none c c1 h there = elim (Option-cases c.pane_id) [
    | inl e ↦ ground arith
    | inr (id, e) ↦
        let (a, c2, f, g) = and_then-returns _ _ c c1 tt (rw (e, close_pane) at h) in ground arith
  ]
