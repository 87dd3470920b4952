-- ===== src/Cells/Console.antt =====
-- extensions/cells.ts: the console's pane, `herdr` and `closePane`. Herdr's command is
-- an interface, as are the JSON parser and the files that a launch prepares.
pub mod Panes
pub mod Opened
pub mod Launch
pub mod Shutdown
use pi_ipython.Common.{
  ◌==◌, Text, text, text_eq, Bool, true, false, not, ◌&&◌, ◌||◌, Option, none, some, List, [], ◌∷◌,
  ◌++◌, if◌then◌else◌, is_some,
}
use pi_ipython.Protocol.{
  pos, negsuc, safe, unsafe, JsonValue, null, boolean, number, string, array, object, Fields, get,
  as_string,
}
use pi_ipython.Output.Report.{or_text}
use pi_ipython.Kernel.Lifecycle.{trim}
use pi_ipython.Persistence.Settings.{Outcome, returns, throws}

-- Is a result of Herdr's truthy?
abbrev pub is_truthy : Option JsonValue → Bool
is_truthy none = false
is_truthy (some v) = elim v [
  | null ↦ false
  | boolean b ↦ b
  | number n ↦ elim n [
    | safe i ↦ elim i [ pos m ↦ not (m == 0) | negsuc m ↦ true ]
    | unsafe m ↦ true
  ]
  | string t ↦ elim t [ [] ↦ false | x ∷ xs ↦ true ]
  | array xs ↦ true
  | object fs ↦ true
]

-- What `pi.exec` gives.
pub record Ran : Type 0 where
  pub success : Bool
  pub stdout : Text
  pub stderr : Text

-- The outside, on a state of its own. `disposed` is set by `shutdown`, which can run while a toggle
-- waits; `prepare` makes the history and the private copy of the connection file.
pub record Outside {ℓ} (S : Type ℓ) : Type ℓ where
  pub exec : List Text → S → Outcome Ran × S
  pub parse : Text → Outcome JsonValue
  pub prepare : S → Outcome (Unit {0}) × S
  pub disposed : S → Bool
  pub in_herdr : Bool

-- The fields of `CellsView` that the console uses, with the outside.
pub record Console {ℓ} (S : Type ℓ) : Type ℓ where
  pub pane_id : Option Text
  pub connection_file : Option Text
  pub failure : Option Text
  pub outside : S

abbrev pub Action {ℓ κ} : Type ℓ → Type κ → Type (ℓ ⊔ κ)
Action S A = Console S → Outcome A × Console S

-- The next step, unless this one throws.
unfoldable pub and_then {ℓ κ} :
    {S : Type ℓ} {A B : Type κ} → Action S A → (A → Action S B) → Action S B
and_then first next c =
    let (o, c1) = first c in elim o [ returns a ↦ next a c1 | throws e ↦ (throws e, c1) ]

-- `value.name`, on an object.
abbrev pub member : Text → Option JsonValue → Option JsonValue
member name (some (object fs)) = get name fs
member name _ = none

-- `Type.String({ minLength: 1 })`.
abbrev pub as_id : Option JsonValue → Option Text
as_id v = elim (as_string v) [ none ↦ none | some t ↦ elim t [ [] ↦ none | c ∷ s ↦ some (c ∷ s) ] ]

-- `JSON.parse(stdout).result`.
abbrev pub result_of : Outcome JsonValue → Outcome (Option JsonValue)
result_of (throws e) = throws e
result_of (returns null) = throws (text "Cannot read properties of null (reading 'result')")
result_of (returns v) = returns (member (text "result") (some v))

abbrev pub error_code : Outcome JsonValue → Option Text
error_code (throws e) = none
error_code (returns v) = as_string (member (text "code") (member (text "error") (some v)))

abbrev pub is_code : Option Text → Text → Bool
is_code none code = false
is_code (some t) code = text_eq t code

abbrev pub same_file : Text → Option Text → Bool
same_file file none = false
same_file file (some f) = text_eq file f

module _ {ℓ} {S : Type ℓ} (o : Outside S) where
  -- What `herdr` makes of a run. The first two words of the command are a noun and a verb.
  unfoldable pub read_run : Text → Text → Ran → Outcome (Option JsonValue)
  read_run noun verb ran =
      let missing = is_code (error_code (o.parse ran.stderr)) (noun ++ text "_not_found") in
      let parsed : Outcome (Option JsonValue) = elim (trim ran.stdout) [
        | [] ↦ returns none
        | c ∷ t ↦ result_of (o.parse ran.stdout)
      ] in
      if not ran.success
      then (if missing && (text_eq verb (text "get") || text_eq verb (text "close"))
          then returns none
          else throws (or_text ran.stderr (text "Herdr command failed")))
      else if text_eq verb (text "wait-output")
      then returns none
      else parsed

  -- `herdr`.
  unfoldable pub herdr : Text → Text → List Text → Action S (Option JsonValue)
  herdr noun verb words c =
      let (ran, s) = o.exec (noun ∷ verb ∷ words) c.outside in
      let c1 = record c { outside = s } in
      elim ran [ returns r ↦ (read_run noun verb r, c1) | throws e ↦ (throws e, c1) ]

  abbrev pub forget_pane : Option JsonValue → Action S (Unit {0})
  forget_pane _ c = (returns tt, record c { pane_id = none; connection_file = none })

  -- `closePane`, but for the copy of the connection file, which it removes at the end.
  unfoldable pub close_pane : Action S (Unit {0})
  close_pane c = elim c.pane_id [
    | none ↦ (returns tt, c)
    | some id ↦ and_then (herdr (text "pane") (text "close") (id ∷ [])) forget_pane c
  ]
