-- ===== src/Extension/Results.antt =====
-- extensions/ipython.ts: what the result of a cell says.
use pi_ipython.Common.{
  Text, text, Bool, Option, none, some, List, [], ◌∷◌, ◌++◌, append_assoc, append-nil,
  if◌then◌else◌, ◌≡◌, ◌≢◌, refl, sym, ap, ◌∙◌, arith, Option-cases, inl, inr,
}
use pi_ipython.Common.Utf8.{IsText}
use pi_ipython.Protocol.{BridgeError, describe_error}
use pi_ipython.Output.Report.{or_text}
use pi_ipython.Cell.{reset_notice, Execution, CellReport, cell_result}
use pi_ipython.Cell.Laws.{cell_result-IsReport}
use pi_ipython.Extension.{deliver, body_of, with_notice, result_text}

-- When a cell has a result, it carries the notices that opening the console left, once: after the
-- reset notice, before the cell's own, and none is left over.
pub deliver-notices {ℓ} :
    {S : Type ℓ} (execution : Execution) (undelivered notices left : List Text)
    (save : Text → S → Option (Text × S)) (s s' : S) (report : CellReport)
    → IsText execution.result.output
    → deliver execution undelivered notices save s ≡ (some (report, s'), left)
    → (report.cell.notices ≡ (
        if execution.kernel_reset
        then reset_notice ∷ (undelivered ++ notices)
        else undelivered ++ notices))
      × (left ≡ [])
unfolding deliver
deliver-notices execution undelivered notices left save s s' report t h =
    elim (Option-cases (cell_result execution (undelivered ++ notices) save s)) [
      | inl e ↦ cc (rw (e, deliver) at h)
      | inr (r, e) ↦
          let k = rw (e, deliver) at h in
          (
            (cell_result-IsReport execution (undelivered ++ notices) save s s' report t
                (ground arith)).0.notices,
            ground arith,
          )
    ]

body_of-output :
    (header : Option Text) (output : Text)
    → (front : Text) × (body_of header output ≡ front ++ output)
body_of-output none output = ([], refl)
body_of-output (some []) output = ([], refl)
body_of-output (some (c ∷ t)) output =
    ((c ∷ t) ++ 10 ∷ [], ap (◌∷◌ c) (sym (append_assoc t (10 ∷ []) output)))

with_notice-parts :
    (notice body : Text)
    → ((front : Text) × (with_notice notice body ≡ front ++ body))
      × ((rest : Text) × (with_notice notice body ≡ notice ++ rest))
with_notice-parts [] body = (([], refl), (body, refl))
with_notice-parts (c ∷ t) [] = ((c ∷ t, sym (append-nil (c ∷ t))), ([], sym (append-nil (c ∷ t))))
with_notice-parts (c ∷ t) (d ∷ s) = (
  ((c ∷ t) ++ text "\n\n", sym (append_assoc (c ∷ t) (text "\n\n") (d ∷ s))),
  (text "\n\n" ++ d ∷ s, refl),
)

-- A text, unless it is empty: then nothing of it is missed.
or_text-keeps :
    (a b output : Text) (front : Text)
    → a ≡ front ++ output
    → (f : Text) × (or_text a b ≡ f ++ output)
or_text-keeps (c ∷ a) b output front e = (front, e)
or_text-keeps [] b [] front e = (b, sym (append-nil b))
or_text-keeps [] b (c ∷ output) [] e = cc e
or_text-keeps [] b (c ∷ output) (d ∷ front) e = cc e

pub or_text_empty : (a b : Text) → b ≢ [] → or_text a b ≢ []
or_text_empty [] b h e = h e
or_text_empty (c ∷ a) b h e = cc e

pub no_output_text : text "[no output]" ≢ []
unfolding text
no_output_text e = cc e

-- The text of a result is never empty, starts with the notices
-- and ends with the output.
pub result_text_lem :
    (notice : Text) (header : Option Text) (output : Text) (failed : Bool)
    (error : Option BridgeError)
    → (result_text notice header output failed error ≢ [])
      × ((front : Text) × (result_text notice header output failed error ≡ front ++ output))
      × ((rest : Text) × (result_text notice header output failed error ≡ notice ++ rest))
unfolding result_text
result_text_lem notice header output failed error =
    let body = body_of header output in
    let other = or_text (if failed then describe_error error else []) (text "[no output]") in
    let ((f, e), (r, g)) = with_notice-parts notice body in
    let (b, h) = body_of-output header output in
    (
      or_text_empty (with_notice notice body) other (or_text_empty _ _ no_output_text),
      or_text-keeps (with_notice notice body) other output (f ++ b)
          (e ∙ (ap (◌++◌ f) h ∙ sym (append_assoc f b output))),
      starts notice body other,
    )
  where
    starts :
        (n body other : Text) → (rest : Text) × (or_text (with_notice n body) other ≡ n ++ rest)
    starts [] body other = (or_text body other, refl)
    starts (c ∷ t) [] other = ([], sym (append-nil (c ∷ t)))
    starts (c ∷ t) (d ∷ s) other = (text "\n\n" ++ d ∷ s, refl)
