-- ===== src/Cells/Transcript/Streams.antt =====
-- extensions/cells.ts: what the transcript shows of a cell's output as it grows.
use pi_ipython.Common.{
  ℕ, Text, false, none, some, List, [], ◌∷◌, ◌++◌, append_assoc, append-nil, strip_prefix-append,
  ◌≡◌, ◌≤◌, ◌+◌, refl, sym, ap, ◌∙◌, arith,
}
use pi_ipython.Common.Utf8.{byte_length}
use pi_ipython.Common.Utf8.Laws.{byte_length-append}
use pi_ipython.Cells.Transcript.{
  max_transcript_bytes, without_control_characters, Transcript, written, opened, append, output,
}

-- The outputs of a cell, each with what the one before it lacks.
pub grow : Text → List Text → List Text
grow seen [] = []
grow seen (piece ∷ pieces) = (seen ++ piece) ∷ grow (seen ++ piece) pieces

pub show_all : List Text → Transcript → Transcript
show_all [] t = t
show_all (shown ∷ rest) t = show_all rest (output (λ s. s) written written shown t)

abbrev pub all_of : List Text → Text
all_of [] = []
all_of (piece ∷ pieces) = piece ++ all_of pieces

-- A transcript that records, with room for so many bytes.
pub record HasRoom (n : ℕ) (t : Transcript) : Type 0 where
  pub live : t.disposed ≡ false
  pub works : t.failure ≡ none
  pub unfilled : t.full ≡ false
  pub room : t.bytes + n ≤ max_transcript_bytes

clean-append :
    (s t : Text)
    → without_control_characters (s ++ t)
      ≡ without_control_characters s ++ without_control_characters t
unfolding without_control_characters
clean-append [] t = refl
clean-append (c ∷ s) t = ground (arith, clean-append s t)

-- The transcript after a part of an output was written.
abbrev after_piece : Text → Transcript → Transcript
after_piece piece t = record t {
  file = some (opened t.file ++ without_control_characters piece);
  full = false;
  bytes = t.bytes + byte_length (without_control_characters piece);
  latest_output = t.latest_output ++ piece;
}

output_lem :
    (piece : Text) (t : Transcript)
    → HasRoom (byte_length (without_control_characters piece)) t
    → output (λ s. s) written written (t.latest_output ++ piece) t ≡ after_piece piece t
unfolding output append
output_lem piece t r =
    let small = r.room in
    rw (strip_prefix-append t.latest_output piece) (rw (r.live, r.works, r.unfilled) (ground arith))

-- While an output only grows and there is room, the transcript holds it once: each part is written
-- when it appears, without its control characters, and nothing else. (Escape sequences aside: here
-- the output has none for Node to strip.)
pub show_all-grow :
    (pieces : List Text) (t : Transcript)
    → HasRoom (byte_length (without_control_characters (all_of pieces))) t
    → opened (show_all (grow t.latest_output pieces) t).file
      ≡ opened t.file ++ without_control_characters (all_of pieces)
unfolding show_all grow
show_all-grow [] t r = unfold without_control_characters in sym (append-nil (opened t.file))
show_all-grow (piece ∷ pieces) t r =
    let clean = without_control_characters in
    let bytes =
      ap byte_length (clean-append piece (all_of pieces))
      ∙ byte_length-append (clean piece) (clean (all_of pieces)) in
    let small = r.room in
    let first =
      output_lem piece t
        (record { live = r.live; works = r.works; unfilled = r.unfilled; room = omega arith }) in
    let rest =
      show_all-grow pieces (after_piece piece t)
        (record { live = r.live; works = r.works; unfilled = refl; room = omega arith }) in
    ap (λ u. opened (show_all (grow (t.latest_output ++ piece) pieces) u).file) first
    ∙ (rest
        ∙ (append_assoc (opened t.file) (clean piece) (clean (all_of pieces))
            ∙ ap (◌++◌ (opened t.file)) (sym (clean-append piece (all_of pieces)))))
