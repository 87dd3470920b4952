-- ===== src/Extension/Session/Lost.antt =====
-- extensions/ipython.ts: the model is told of a kernel that was lost, and not of what `sync` reported
-- when the cell fails.
use pi_ipython.Common.{
  Text, text, ◌&&◌, text_eq, text_eq_iff, text_eq_refl, ◌∙◌, Option, none, some, List, [], ◌∷◌,
  ◌++◌, ◌≡◌, refl, ap, sym, subst, arith, Bool-cases, inl, inr, false, true,
}
use pi_ipython.Protocol.{JsonValue}
use pi_ipython.Cell.{reset_notice, Execution}
use pi_ipython.Persistence.Settings.{returns}
use pi_ipython.Extension.{
  Entry, Forwarded, get_notices, delete, set, checkpoint_ids, ToolResult, on_kernel_lost,
  on_tool_result,
}
use pi_ipython.Extension.Session.{done, lost, failed, Services, Running, Session, get_runtime}
use pi_ipython.Extension.Session.Cells.{Ran, run_cell, end_cell, execute_cell}
use pi_ipython.Extension.Session.Answers.{IsKept, IsAccounted, execute_cell-IsAccounted}

same_key :
    (k key other : Text)
    → text_eq k key ≡ true
    → text_eq key other ≡ false
    → text_eq k other ≡ false
same_key k key other e h = ap (λ t. text_eq t other) ((text_eq_iff k key).0 e) ∙ h

get_notices-set :
    (key : Text) (value : List Text) (map : Forwarded) → get_notices key (set key value map) ≡ value
unfolding get_notices set
get_notices-set key value [] = ground (arith, text_eq_refl key)
get_notices-set key value ((k, notices) ∷ rest) =
    ground (arith, text_eq_refl key, get_notices-set key value rest)

get_notices-set_other :
    (key other : Text) (value : List Text) (map : Forwarded)
    → text_eq key other ≡ false
    → get_notices other (set key value map) ≡ get_notices other map
unfolding get_notices set
get_notices-set_other key other value [] h = ground arith
get_notices-set_other key other value ((k, notices) ∷ rest) h = elim (Bool-cases (text_eq k key)) [
  | inl e ↦ let g = same_key k key other e h in ground arith
  | inr e ↦ let rec = get_notices-set_other key other value rest h in ground arith
]

get_notices-delete_other :
    (key other : Text) (map : Forwarded)
    → text_eq key other ≡ false
    → get_notices other (delete key map) ≡ get_notices other map
unfolding get_notices delete
get_notices-delete_other key other [] h = refl
get_notices-delete_other key other ((k, notices) ∷ rest) h = elim (Bool-cases (text_eq k key)) [
  | inl e ↦ let g = same_key k key other e h in ground arith
  | inr e ↦ let rec = get_notices-delete_other key other rest h in ground arith
]

-- What the tool's result tells: the model, or, for a cell that another tool ran, that tool's call.
unfoldable pub IsTold : Option Text → ToolResult → Forwarded → Forwarded → Type 0
IsTold none e before map = (on_tool_result e map).shown ≡ reset_notice ∷ []
IsTold (some parent) e before map =
    ((on_tool_result e map).shown ≡ [])
    × (get_notices parent (on_tool_result e map).forwarded
        ≡ get_notices parent before ++ reset_notice ∷ [])

-- The result of a call that throws has no structured content.
abbrev pub thrown : Text → Text → Option Text → Option JsonValue → ToolResult
thrown call_id tool_name parent details = record {
  call_id = call_id;
  tool_name = tool_name;
  parent = parent;
  details = details;
  structured = none;
}

-- The call is not its own parent.
unfoldable pub IsOther : Text → Option Text → Type 0
IsOther call_id none = Unit
IsOther call_id (some parent) = text_eq call_id parent ≡ false

on_tool_result-IsTold :
    (call_id tool_name : Text) (parent : Option Text) (details : Option JsonValue) (map : Forwarded)
    → IsOther call_id parent
    → IsTold parent (thrown call_id tool_name parent details) map (on_kernel_lost call_id map)
unfolding IsTold IsOther on_tool_result on_kernel_lost
on_tool_result-IsTold call_id tool_name none details map h =
    let w = get_notices-set call_id (reset_notice ∷ []) map in
    elim (Bool-cases (text_eq tool_name (text "ipython") && false)) [
      | inl n ↦ rw (n, w, on_tool_result) refl
      | inr n ↦ rw (n, w, on_tool_result) refl
    ]
on_tool_result-IsTold call_id tool_name (some parent) details map h =
    let after = set call_id (reset_notice ∷ []) map in
    let w = get_notices-set call_id (reset_notice ∷ []) map in
    let kept =
      get_notices-delete_other call_id parent after h
      ∙ get_notices-set_other call_id parent (reset_notice ∷ []) map h in
    let waiting =
      get_notices-set parent (get_notices parent (delete call_id after) ++ reset_notice ∷ [])
        (delete call_id after)
      ∙ ap (λ ts. ts ++ reset_notice ∷ []) kept in
    elim (Bool-cases (text_eq tool_name (text "ipython") && true)) [
      | inl n ↦ rw (n, w, on_tool_result) (refl, waiting)
      | inr n ↦ rw (n, w, on_tool_result) (refl, waiting)
    ]

module _ {ℓ κ} {R : Type ℓ} {S : Type κ} (api : Services R S) where
  -- When a cell loses the kernel, the result of its call tells the model so; or, when another tool ran
  -- the cell, the reset notice waits for that tool's call, after what waits there already.
  pub lost_kernel-IsTold :
      (call_id code : Text) (branch : List Entry) (s : Session R S) (m tool_name : Text)
      (parent : Option Text) (details : Option JsonValue)
      → (execute_cell api call_id code branch s).end ≡ lost m
      → IsOther call_id parent
      → IsTold parent
          (thrown call_id tool_name parent details)
          s.forwarded
          (execute_cell api call_id code branch s).session.forwarded
  unfolding IsAccounted
  lost_kernel-IsTold call_id code branch s m tool_name parent details h other =
      let x = execute_cell api call_id code branch s in
      let accounted : IsAccounted api call_id code branch s (lost m) x.session =
        subst (λ e. IsAccounted api call_id code branch s e x.session) h
          (execute_cell-IsAccounted api call_id code branch s) in
      subst (IsTold parent (thrown call_id tool_name parent details) s.forwarded)
        (sym accounted.forwarded)
        (on_tool_result-IsTold call_id tool_name parent details s.forwarded other)

  get_runtime-current :
      (c : Running R) (s : Session R S)
      → s.current ≡ some c
      → get_runtime api s ≡ (returns c.runtime, s)
  unfolding get_runtime
  get_runtime-current c s e =
      rw (e, get_runtime) (ap (λ o. (returns c.runtime, record s { current = o })) e)

  run_cell-failed :
      (r : R) (notices : List Text) (call_id code m : Text) (branch : List Entry) (sv : S)
      → (api.sync r (checkpoint_ids branch) sv).1.0 ≡ done notices
      → (api.execute r call_id code (api.sync r (checkpoint_ids branch) sv).1.1).1.0 ≡ failed m
      → (run_cell api r call_id code branch sv).end ≡ failed m
  unfolding run_cell
  run_cell-failed r notices call_id code m branch sv f g = rw (f, run_cell) (rw g refl)

  end_cell-failed :
      (r : R) (call_id code m : Text) (ran : Ran (List Text × Execution) S) (s : Session R S)
      → ran.end ≡ failed m
      → ((end_cell api r call_id code ran s).end ≡ failed m)
        × IsKept api s (end_cell api r call_id code ran s).session
  unfolding end_cell
  end_cell-failed r call_id code m ran s e =
      rw (e, end_cell) (refl, record { undelivered = refl; forwarded = refl })

  -- When `sync` gave notices and the cell then fails, no one is told of them: the call fails, and
  -- what waits for the model is what waited before.
  pub failed_execute_drops_notices :
      (c : Running R) (notices : List Text) (call_id code m : Text) (branch : List Entry)
      (s : Session R S)
      → s.current ≡ some c
      → (api.sync c.runtime (checkpoint_ids branch) s.services).1.0 ≡ done notices
      → (api.execute c.runtime call_id code
          (api.sync c.runtime (checkpoint_ids branch) s.services).1.1).1.0
        ≡ failed m
      → ((execute_cell api call_id code branch s).end ≡ failed m)
        × IsKept api s (execute_cell api call_id code branch s).session
  unfolding execute_cell
  failed_execute_drops_notices c notices call_id code m branch s e f g =
      let running = get_runtime-current c s e in
      let failing =
        end_cell-failed c.runtime call_id code m
          (run_cell api c.runtime call_id code branch s.services) s
          (run_cell-failed c.runtime notices call_id code m branch s.services f g) in
      rw (running, execute_cell) (rw running failing.0, rw running failing.1)
