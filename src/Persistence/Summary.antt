-- ===== src/Persistence/Summary.antt =====
-- core/persistence.ts: `isRestoreSummary` and `restoreNotice`.
use pi_ipython.Common.{
  Text, text, text_eq, Bool, Option, none, some, List, [], ◌∷◌, ◌++◌, map, if◌then◌else◌, ◌>>=◌,
  join, concat,
}
use pi_ipython.Protocol.{
  Number, JsonValue, Items, Fields, array, object, nil, item, get, as_string, as_number, as_boolean,
}

pub data RestoreSummary : Type 0 where
  unavailable : Text → RestoreSummary
  empty : Bool → RestoreSummary
  restored : Text → Number → List Text → List (Text × Text) → Bool → RestoreSummary

-- The loops over `restored` and `Object.values(skipped)`: every item is a string.
unfoldable pub strings_of : Items → Option (List Text)
strings_of nil = some []
strings_of (item v rest) = do t ← as_string (some v); ts ← strings_of rest; some (t ∷ ts)

unfoldable pub string_fields : Fields → Option (List (Text × Text))
string_fields Fields.end = some []
string_fields (Fields.field name v rest) = do
  t ← as_string (some v)
  ts ← string_fields rest
  some ((name, t) ∷ ts)

abbrev pub as_strings : Option JsonValue → Option (List Text)
as_strings (some (array xs)) = strings_of xs
as_strings _ = none

abbrev pub as_string_fields : Option JsonValue → Option (List (Text × Text))
as_string_fields (some (object fs)) = string_fields fs
as_string_fields _ = none

unfoldable pub read_restored : Fields → Option RestoreSummary
read_restored fs = do
  id ← as_string (get (text "id") fs)
  cell ← as_number (get (text "cell") fs)
  fell_back ← as_boolean (get (text "fellBack") fs)
  names ← as_strings (get (text "restored") fs)
  skipped ← as_string_fields (get (text "skipped") fs)
  some (restored id cell names skipped fell_back)

unfoldable pub read_status : Text → Fields → Option RestoreSummary
unfolding read_restored
read_status status fs =
    if text_eq status (text "unavailable")
    then (as_string (get (text "error") fs) >>= λ e. some (unavailable e))
    else if text_eq status (text "empty")
    then (as_boolean (get (text "fellBack") fs) >>= λ b. some (empty b))
    else if text_eq status (text "restored")
    then read_restored fs
    else none

-- `isRestoreSummary`: the summary at its narrowed type.
unfoldable pub as_restore_summary : Option JsonValue → Option RestoreSummary
as_restore_summary (some (object fs)) = as_string (get (text "status") fs) >>= λ s. read_status s fs
as_restore_summary _ = none

-- `parts.join(sep) || "none"`.
abbrev pub or_none : Text → Text
or_none [] = text "none"
or_none (c ∷ t) = c ∷ t

pub skipped_text : Text × Text → Text
skipped_text (name, reason) = name ++ (text " (" ++ (reason ++ text ")"))

abbrev framed : List Text → Text
framed body =
    join (10 ∷ [])
      (text "<ipython_state_restored>" ∷ (body ++ text "</ipython_state_restored>" ∷ []))

-- `restoreNotice`. `shown` is how a template string prints a number.
pub restore_notice : (Number → Text) → RestoreSummary → Text
unfolding skipped_text
restore_notice shown (unavailable e) = text "IPython checkpoint storage unavailable: " ++ e
restore_notice shown (empty fell_back) = framed (
    (if fell_back
      then text "No checkpoint on this branch is available; namespace reset to startup state."
      else text "No IPython cell on this branch yet; namespace reset to startup state.")
    ∷ [])
restore_notice shown (restored id cell names skipped fell_back) = framed (
    concat (
      text "Kernel state now matches this branch as of In ["
      ∷ shown cell
      ∷ text "]: "
      ∷ or_none (join (text ", ") names)
      ∷ text ". Not restored: "
      ∷ or_none (join (text "; ") (map skipped_text skipped))
      ∷ text ". Variables created on the branch you left are gone."
      ∷ [])
    ∷ (if fell_back
        then text "The newest checkpoint on this branch was unavailable; used an older one." ∷ []
        else []))
