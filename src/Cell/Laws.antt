-- ===== src/Cell/Laws.antt =====
-- What a cell's report says, in terms of what the bridge reported.
use pi_ipython.Common.{
  ℕ, ◌==◌, decimal, ◌∙◌, ◌≢◌, ◌≤◌, some_first, Text, text, text_eq_iff, true, Option, some, List,
  [], ◌∷◌, ◌++◌, map, ltb, if◌then◌else◌, is_some, ◌≡◌, ◌↔◌, refl, ap, arith, inl, inr, Bool-cases,
  Option-cases, subst,
}
use pi_ipython.Common.Utf8.{byte_length, IsText}
use pi_ipython.Output.Ansi.{strip_ansi}
use pi_ipython.Output.Truncation.{truncate_tail, output_max_bytes}
use pi_ipython.Output.Report.{FinalOutput, final_output}
use pi_ipython.Output.Report.Laws.{header_of-some, size_of_images, final_output_bounds}
use pi_ipython.Protocol.{BridgeError, BridgeResult}
use pi_ipython.Cell.{
  Status, FigurePart, image, note, CellReport, Execution, reset_notice, status_of, error_for,
  dropped_note, figures_of, report_of, cell_result,
}

-- The images among the parts of a result, and its other parts.
pub images_in : List FigurePart → List Text
images_in [] = []
images_in (image png ∷ parts) = png ∷ images_in parts
images_in (note t ∷ parts) = images_in parts

pub notes_in : List FigurePart → List Text
notes_in [] = []
notes_in (image png ∷ parts) = notes_in parts
notes_in (note t ∷ parts) = t ∷ notes_in parts

images_in-append :
    (pngs : List Text) (t : Text)
    → (images_in (map image pngs ++ note t ∷ []) ≡ pngs)
      × (notes_in (map image pngs ++ note t ∷ []) ≡ t ∷ [])
unfolding images_in notes_in
images_in-append [] t = (refl, refl)
images_in-append (p ∷ pngs) t = let (a, b) = images_in-append pngs t in (ap (◌∷◌ p) a, b)

images_in-map :
    (pngs : List Text)
    → (images_in (map image pngs ++ []) ≡ pngs) × (notes_in (map image pngs ++ []) ≡ [])
unfolding images_in notes_in
images_in-map [] = (refl, refl)
images_in-map (p ∷ pngs) = let (a, b) = images_in-map pngs in (ap (◌∷◌ p) a, b)

-- The note says how many figures were dropped, and the limits.
unfoldable pub note_text : ℕ → Text
note_text dropped =
    decimal dropped
    ++ ((if dropped == 1 then text " figure" else text " figures")
        ++ text " not sent: the limit is 4 figures and 8.0MB per cell.")

dropped_note_lem : (n : ℕ) → dropped_note n ≡ note_text n
unfolding dropped_note note_text text decimal
dropped_note_lem n = elim (Bool-cases (n == 1)) [
  | inl one ↦ rw (one, size_of_images) refl
  | inr more ↦ rw (more, size_of_images) refl
]

-- The report of a cell: its status, and when it has an error, a path and a header; which notices it
-- gives, and that it passes on every image, in order, with a note exactly if some were dropped.
pub record IsReport (execution : Execution) (received : List Text) (report : CellReport)
    : Type 0 where
  pub status : (report.cell.status ≡ Status.ok) ↔ (execution.result.status ≡ text "ok")
  pub error : (is_some report.cell.error ≡ true) ↔ (report.cell.status ≡ Status.error)
  pub path : is_some report.cell.full_output_path ≡ report.cell.truncated
  pub header : is_some report.header ≡ report.cell.truncated
  pub headed : report.header ≢ some []
  pub notices :
      report.cell.notices ≡ (if execution.kernel_reset then reset_notice ∷ received else received)
  pub images : images_in report.figures ≡ execution.result.images
  pub dropped : notes_in report.figures ≡ (
      if ltb 0 execution.result.images_dropped
      then note_text execution.result.images_dropped ∷ []
      else [])

status_of_iff : (t : Text) → (status_of t ≡ Status.ok) ↔ (t ≡ text "ok")
unfolding status_of
status_of_iff t = ground (arith, text_eq_iff t (text "ok"))

error_for_iff :
    (s : Status) (e : Option BridgeError) → (is_some (error_for s e) ≡ true) ↔ (s ≡ Status.error)
error_for_iff Status.ok e = ((λ h. cc), (λ h. cc))
error_for_iff Status.error e = ((λ _. refl), (λ _. refl))

figures_of-parts :
    (result : BridgeResult)
    → (images_in (figures_of result) ≡ result.images)
      × (notes_in (figures_of result)
          ≡ (if ltb 0 result.images_dropped then note_text result.images_dropped ∷ [] else []))
unfolding figures_of
figures_of-parts result = elim (Bool-cases (ltb 0 result.images_dropped)) [
  | inl some_lost ↦
      let (pngs, notes) = images_in-append result.images (dropped_note result.images_dropped) in
      rw some_lost (pngs, notes ∙ ap (λ t. t ∷ []) (dropped_note_lem result.images_dropped))
  | inr none_lost ↦ rw none_lost (images_in-map result.images)
]

report_of-IsReport :
    (execution : Execution) (received : List Text) (final : FinalOutput)
    → is_some final.full_output_path ≡ final.truncated
    → is_some final.header ≡ final.truncated
    → final.header ≢ some []
    → IsReport execution received (report_of execution received final)
unfolding report_of
report_of-IsReport execution received final p h some_text = record {
  status = status_of_iff execution.result.status;
  error = error_for_iff (status_of execution.result.status) execution.result.error;
  path = p;
  header = h;
  headed = some_text;
  notices = refl;
  images = (figures_of-parts execution.result).0;
  dropped = (figures_of-parts execution.result).1;
}

-- There is a path and a header exactly if the output was truncated, and the header is not empty.
abbrev pub IsMarked : FinalOutput → Type 0
IsMarked final =
    (is_some final.full_output_path ≡ final.truncated)
    × (is_some final.header ≡ final.truncated)
    × (final.header ≢ some [])

final_output-IsMarked {ℓ} :
    {S : Type ℓ} (t : Text) (save : Text → S → Option (Text × S)) (s s' : S) (final : FinalOutput)
    → final_output t save s ≡ some (final, s')
    → IsMarked final
unfolding final_output
final_output-IsMarked t save s s' final h =
    let clean = strip_ansi t in
    elim (Bool-cases (truncate_tail clean).truncated) [
      | inr e ↦ subst IsMarked (some_first (rw (e, final_output) at h)) (refl, refl, (λ n. cc))
      | inl e ↦ elim (Option-cases (save clean s)) [
        | inl f ↦ cc (rw (f, e, final_output) at h)
        | inr ((path, s2), f) ↦
            subst IsMarked (some_first (rw (f, e, final_output) at h))
              (refl, refl, header_of-some _ path)
      ]
    ]

pub reported-IsReport {ℓ} :
    {S : Type ℓ} (execution : Execution) (received : List Text)
    (save : Text → S → Option (Text × S)) (s s' : S) (report : CellReport)
    → cell_result execution received save s ≡ some (report, s')
    → IsReport execution received report
unfolding cell_result
reported-IsReport execution received save s s' report h =
    elim (Option-cases (final_output execution.result.output save s)) [
      | inl e ↦ cc (rw (e, cell_result) at h)
      | inr ((final, s1), e) ↦
          let (path, header, headed) =
            final_output-IsMarked execution.result.output save s s1 final e in
          subst (IsReport execution received) (some_first (rw (e, cell_result) at h))
            (report_of-IsReport execution received final path header headed)
    ]

pub cell_result-IsReport {ℓ} :
    {S : Type ℓ} (execution : Execution) (received : List Text)
    (save : Text → S → Option (Text × S)) (s s' : S) (report : CellReport)
    → IsText execution.result.output
    → cell_result execution received save s ≡ some (report, s')
    → IsReport execution received report × (byte_length report.cell.output ≤ output_max_bytes)
unfolding cell_result
cell_result-IsReport {S} execution received save s s' report t h =
    elim (Option-cases (final_output execution.result.output save s)) [
      | inl e ↦ cc (rw (e, cell_result) at h)
      | inr ((final, s1), e) ↦ (
        reported-IsReport execution received save s s' report h,
        subst (λ r. byte_length r.cell.output ≤ output_max_bytes)
            (some_first (rw (e, cell_result) at h))
            (unfold report_of in final_output_bounds execution.result.output save s s1 final t e),
      )
    ]
