-- ===== src/Output/Report/Laws.antt =====
-- What the final and the running output of a cell consist of.
use pi_ipython.Common.{
  ◌≢◌, ◌*◌, ℕ, ◌-◌, decimal, leb, length, subst, some_inj, join, append_assoc, append-nil, ◌+◌, ◌≤◌,
  ◌<◌, Text, true, false, Option, none, some, [], ◌∷◌, ◌++◌, ◌≡◌, ◌⊎◌, ◌↔◌, refl, ap, ◌∙◌, arith,
  inl, inr, Bool-cases, Option-cases, text,
}
use pi_ipython.Common.Utf8.{utf8, byte_length, IsText}
use pi_ipython.Common.Utf8.Laws.{byte_length-append}
use pi_ipython.Output.Ansi.{strip_ansi}
use pi_ipython.Output.Ansi.Order.{Subsequence, end, keep, omit, strip_ansi-Subsequence}
use pi_ipython.Output.Truncation.{
  Tail, truncate_tail, newline, output_max_lines, output_max_bytes, lines_of,
}
use pi_ipython.Output.Truncation.Tails.{
  IsCut, IsWhole, IsCut-bounds, IsWhole-bounds, truncate_tail_bounds, truncate_tail_kept,
  truncate_tail_within,
}
use pi_ipython.Output.Report.{
  FinalOutput, format_size, final_output, header_of, partial_text, or_text,
}

Subsequence-IsText : {s t : Text} → Subsequence s t → IsText t → IsText s
Subsequence-IsText end h = tt
Subsequence-IsText (keep c k) (h, hs) = (h, Subsequence-IsText k hs)
Subsequence-IsText (omit c k) (h, hs) = Subsequence-IsText k hs

pub strip_ansi-IsText : (t : Text) → IsText t → IsText (strip_ansi t)
strip_ansi-IsText t h = Subsequence-IsText (strip_ansi-Subsequence t) h

-- The header names the lines and bytes that are shown, those that there are and those left out, and
-- ends with the path.
unfoldable pub header_text : ℕ → ℕ → ℕ → ℕ → Text → Text
header_text lines all_lines bytes all_bytes path =
    text "[Output truncated: showing the last "
    ++ (decimal lines
        ++ (text " of "
            ++ (decimal all_lines
                ++ (text " lines ("
                    ++ (format_size bytes
                        ++ (text " of "
                            ++ (format_size all_bytes
                                ++ (text "). "
                                    ++ (decimal (all_lines - lines)
                                        ++ (text " lines ("
                                            ++ (format_size (all_bytes - bytes)
                                                ++ (text ") omitted. Full output saved to: "
                                                    ++ (path ++ text "]")))))))))))))

header_of_lem :
    (tail : Tail) (path : Text)
    → header_of tail path
      ≡ header_text tail.output_lines tail.total_lines tail.output_bytes tail.total_bytes path
unfolding header_of header_text text join
header_of_lem tail path = simp (append_assoc, append-nil)

pub header_of-some : (tail : Tail) (path : Text) → some (header_of tail path) ≢ some []
unfolding header_of join text
header_of-some tail path e = cc

pub size_of_images : format_size (8 * 1024 * 1024) ≡ text "8.0MB"
unfolding format_size text decimal
size_of_images = refl

-- Text that is over a limit of the tail.
abbrev pub IsLong : Text → Type 0
IsLong clean = (output_max_lines < length (lines_of clean)) ⊎ (output_max_bytes < byte_length clean)

truncated-IsLong : (t : Text) → (truncate_tail t).truncated ≡ true → IsLong t
truncated-IsLong t cut =
    let ((left, whole), same, lines, bytes) = truncate_tail_within t in
    elim (Bool-cases (leb (length (lines_of t)) output_max_lines)) [
      | inr many ↦ inl (ground arith)
      | inl few ↦ elim (Bool-cases (leb (byte_length t) output_max_bytes)) [
        | inr large ↦ inr (ground arith)
        | inl small ↦ let f = whole (ground arith, ground arith) in cc (cut, f)
      ]
    ]

-- The text is within both limits, and nothing was saved: the output is all of it, without its escape
-- sequences.
abbrev pub IsPlain {ℓ} : {S : Type ℓ} → Text → S → FinalOutput → S → Type ℓ
IsPlain output s final s' =
    (length (lines_of (strip_ansi output)) ≤ output_max_lines)
    × (byte_length (strip_ansi output) ≤ output_max_bytes)
    × (final.truncated ≡ false)
    × (final.output ≡ strip_ansi output)
    × (final.header ≡ none)
    × (final.full_output_path ≡ none)
    × (s' ≡ s)

-- The text is over a limit, and all of it was saved once: the output is the last `count` of its
-- lines, or the end of its last line, under a header that names the counts and the file.
abbrev pub IsSaved {ℓ} :
    {S : Type ℓ} → Text → (Text → S → Option (Text × S)) → S → FinalOutput → S → Type ℓ
IsSaved output save s final s' =
    (path : Text) × (count : ℕ) × IsLong (strip_ansi output)
    × (save (strip_ansi output) s ≡ some (path, s'))
    × (final.truncated ≡ true)
    × (IsCut (strip_ansi output) final.output count
        ⊎ IsWhole (strip_ansi output) final.output count)
    × (final.header
        ≡ some (
            header_text count (length (lines_of (strip_ansi output))) (byte_length final.output)
              (byte_length (strip_ansi output)) path))
    × (final.full_output_path ≡ some path)

header_of-tail :
    (t path : Text)
    → IsText t
    → header_of (truncate_tail t) path
      ≡ header_text
          (truncate_tail t).output_lines
          (length (lines_of t))
          (byte_length (truncate_tail t).content)
          (byte_length t)
          path
header_of-tail t path h =
    let (few, small, fewer, bytes) = truncate_tail_bounds t h in
    let (left, same, all_lines, all_bytes) = truncate_tail_within t in
    header_of_lem (truncate_tail t) path ∙ rw (bytes, all_lines, all_bytes) refl

module _ {ℓ} {S : Type ℓ} (output : Text) (save : Text → S → Option (Text × S)) where
  -- A failure to save is the only failure, and happens only for truncated output.
  pub final_output-none :
      (s : S)
      → (final_output output save s ≡ none) ↔ (
          ((truncate_tail (strip_ansi output)).truncated ≡ true)
          × (save (strip_ansi output) s ≡ none))
  unfolding final_output
  final_output-none s = elim (Bool-cases (truncate_tail (strip_ansi output)).truncated) [
    | inr whole ↦ ((λ h. cc (rw whole at h)), (λ h. cc))
    | inl cut ↦ elim (Option-cases (save (strip_ansi output) s)) [
      | inl failed ↦ ((λ h. (cut, failed)), (λ h. rw (cut, failed)))
      | inr ((path, s1), saved) ↦ ((λ h. cc (rw (cut, saved) at h)), (λ h. cc))
    ]
  ]

  -- The final output of a cell is either all of its text without its escape sequences, if that is
  -- within 2000 lines and 50 KiB, with nothing saved; or, if it is over a limit, its last lines (or
  -- the end of its last line, if that alone is too long), with the whole text saved once, its path in
  -- the result, and a header that gives the lines and bytes shown, those of the text, those omitted,
  -- and the path.
  pub final_output_lem :
      (s s' : S) (final : FinalOutput)
      → IsText output
      → final_output output save s ≡ some (final, s')
      → IsPlain output s final s' ⊎ IsSaved output save s final s'
  unfolding final_output
  final_output_lem s s' final t h =
      let clean = strip_ansi output in
      let tail = truncate_tail clean in
      let is_text = strip_ansi-IsText output t in
      elim (Bool-cases tail.truncated) [
        | inr whole ↦
            let (few, small) = (truncate_tail_within clean).0.0 whole in
            let same = (truncate_tail_within clean).1 whole in
            inl (few, small, ground arith, ground arith, ground arith, ground arith, ground arith)
        | inl cut ↦ elim (Option-cases (save clean s)) [
          | inl failed ↦ cc ((final_output-none s).1 (cut, failed))
          | inr ((path, s1), saved) ↦ inr (
              subst (λ p. IsSaved output save s p.0 p.1)
                (some_inj (rw (cut, saved, final_output) at h))
                (
                  path,
                  tail.output_lines,
                  truncated-IsLong clean cut,
                  saved,
                  refl,
                  truncate_tail_kept clean is_text cut,
                  ap some (header_of-tail clean path is_text),
                  refl,
                ))
        ]
      ]

-- The final output is within the limits of a tail.
pub final_output_bounds {ℓ} :
    {S : Type ℓ} (output : Text) (save : Text → S → Option (Text × S)) (s s' : S)
    (final : FinalOutput)
    → IsText output
    → final_output output save s ≡ some (final, s')
    → byte_length final.output ≤ output_max_bytes
final_output_bounds output save s s' final t h =
    elim (final_output_lem output save s s' final t h) [
      | inl plain ↦ omega (arith, plain.1, ap byte_length plain.3)
      | inr (path, count, long, saved, cut, kept, header, at_path) ↦ elim kept [
        | inl k ↦ (IsCut-bounds (strip_ansi output) final.output count k).1
        | inr k ↦ (IsWhole-bounds (strip_ansi output) final.output count k).1
      ]
    ]

no_output_length : byte_length (text "[no output yet]") ≡ 15
unfolding text utf8
no_output_length = refl

notice_length : byte_length (text "[Live output truncated; showing the tail]") ≡ 41
unfolding text utf8
notice_length = refl

marked_bounds :
    (s : Text)
    → byte_length s ≤ output_max_bytes
    → let marked = text "[Live output truncated; showing the tail]" ++ (newline ∷ s) in
      (0 < byte_length marked) × (byte_length marked ≤ output_max_bytes + 42)
marked_bounds s h =
    let total =
      byte_length-append (text "[Live output truncated; showing the tail]") (newline ∷ s) in
    let line = byte_length-append (newline ∷ []) s in
    (
      omega (arith, total, line, notice_length),
      omega (arith, total, line, notice_length, one_length),
    )
  where
    one_length : byte_length (newline ∷ []) ≡ 1
    one_length = unfold utf8 in refl

plain_bounds :
    (s : Text)
    → byte_length s ≤ output_max_bytes
    → let plain = or_text s (text "[no output yet]") in
      (0 < byte_length plain) × (byte_length plain ≤ output_max_bytes + 42)
plain_bounds [] h = (omega (arith, no_output_length), omega (arith, no_output_length))
plain_bounds (c ∷ s) h = (unfold utf8 in omega arith, omega arith)

-- A progress update is never empty and passes the byte limit by the notice line at most.
pub partial_text_bounds :
    (output : Text)
    → IsText output
    → (0 < byte_length (partial_text output))
      × (byte_length (partial_text output) ≤ output_max_bytes + 42)
partial_text_bounds output t =
    let (few, small, fewer, same) =
      truncate_tail_bounds (strip_ansi output) (strip_ansi-IsText output t) in
    let tail = truncate_tail (strip_ansi output) in
    elim (Bool-cases tail.truncated) [
      | inl cut ↦ unfold partial_text in rw cut (marked_bounds tail.content (omega arith))
      | inr whole ↦ unfold partial_text in rw whole (plain_bounds tail.content (omega arith))
    ]
