-- ===== src/Extension/Notices.antt =====
-- extensions/ipython.ts: no notice is lost or given twice on its way to the model.
use pi_ipython.Common.{
  ℕ, ◌+◌, Text, text_eq, Option, none, some, List, [], ◌∷◌, ◌++◌, if◌then◌else◌, ◌≡◌, refl, arith,
  Bool-cases, inl, inr,
}
use pi_ipython.Extension.{
  Forwarded, get_notices, delete, set, ToolResult, notices_of, is_nested, as_checkpoint_ref,
  pass_on, on_tool_result,
}

-- How often a notice is in a list, and in the map.
unfoldable pub occurrences : Text → List Text → ℕ
occurrences n [] = 0
occurrences n (t ∷ ts) = (if text_eq t n then 1 else 0) + occurrences n ts

unfoldable pub held : Text → Forwarded → ℕ
held n [] = 0
held n ((k, ts) ∷ rest) = occurrences n ts + held n rest

pub occurrences-append :
    (n : Text) (a b : List Text) → occurrences n (a ++ b) ≡ occurrences n a + occurrences n b
unfolding occurrences
occurrences-append n [] b = omega arith
occurrences-append n (t ∷ a) b = omega (arith, occurrences-append n a b)

held-delete :
    (n key : Text) (map : Forwarded)
    → held n (delete key map) + occurrences n (get_notices key map) ≡ held n map
unfolding held delete get_notices occurrences
held-delete n key [] = refl
held-delete n key ((k, ts) ∷ rest) = ground (arith, held-delete n key rest)

pub held-set :
    (n key : Text) (value : List Text) (map : Forwarded)
    → held n (set key value map) + occurrences n (get_notices key map)
      ≡ held n map + occurrences n value
unfolding held set get_notices occurrences
held-set n key value [] = omega arith
held-set n key value ((k, ts) ∷ rest) = ground (arith, held-set n key value rest)

pass_on-keeps :
    (n : Text) (parent : Option Text) (ts : List Text) (map : Forwarded) (entry : Option Text)
    → held n (pass_on parent ts map entry).forwarded
        + occurrences n (pass_on parent ts map entry).shown
      ≡ held n map + occurrences n ts
unfolding occurrences
pass_on-keeps n parent [] map entry = refl
pass_on-keeps n none (t ∷ ts) map entry = refl
pass_on-keeps n (some parent) (t ∷ ts) map entry = omega (
  arith,
  held-set n parent (get_notices parent map ++ t ∷ ts) map,
  occurrences-append n (get_notices parent map) (t ∷ ts),
)

-- The notices that a result brings in.
abbrev pub brought : ToolResult → List Text
brought e = if is_nested e then notices_of e.structured else []

-- No notice is lost and none is given twice: what waits after a tool's result, with what that result
-- shows to the model, is what waited before it, with the notices of the cells that another tool ran.
pub on_tool_result-keeps :
    (n : Text) (e : ToolResult) (map : Forwarded)
    → held n (on_tool_result e map).forwarded + occurrences n (on_tool_result e map).shown
      ≡ held n map + occurrences n (brought e)
unfolding on_tool_result
on_tool_result-keeps n e map =
    let waiting = get_notices e.call_id map in
    let left = delete e.call_id map in
    let taken = held-delete n e.call_id map in
    elim (Bool-cases (is_nested e)) [
      | inl h ↦
          let kept =
            pass_on-keeps n e.parent (waiting ++ notices_of e.structured) left
              (as_checkpoint_ref e.details) in
          rw h (omega (arith, kept, taken, occurrences-append n waiting (notices_of e.structured)))
      | inr h ↦
          let kept = pass_on-keeps n e.parent waiting left none in
          rw h (unfold occurrences in omega (arith, kept, taken))
    ]
