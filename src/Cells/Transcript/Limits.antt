-- ===== src/Cells/Transcript/Limits.antt =====
-- extensions/cells.ts: what the transcript's file can hold.
use pi_ipython.Common.{
  ℕ, ◌+◌, ◌≤◌, Text, text, Bool, true, false, ◌&&◌, ◌||◌, List, [], ◌∷◌, ltb, is_some, strip_prefix,
  ◌++◌, Option, none, some, sym, ap, ◌∙◌, subst, append-nil, append_assoc, All, All-append, ◌≡◌,
  refl, arith, Bool-cases, Option-cases, inl, inr,
}
use pi_ipython.Common.Utf8.{utf8, byte_length}
use pi_ipython.Common.Utf8.Laws.{byte_length-append}
use pi_ipython.Cells.Transcript.{
  max_transcript_bytes, is_shown, without_control_characters, Transcript, new_transcript, Write,
  written, not_opened, not_appended, file_header, limit_notice, opened, add_piece, append, begin,
  note, output, finish,
}

abbrev pub IsShown : Text → Type 0
IsShown t = All (λ c. is_shown c ≡ true) t

without_control_characters-IsShown : (t : Text) → IsShown (without_control_characters t)
unfolding without_control_characters
without_control_characters-IsShown [] = tt
without_control_characters-IsShown (c ∷ t) = elim (Bool-cases (is_shown c)) [
  | inl e ↦ rw e (e, without_control_characters-IsShown t)
  | inr e ↦ rw e (without_control_characters-IsShown t)
]

-- What ends the file when the transcript is full.
abbrev pub ending : Bool → Text
ending true = limit_notice
ending false = []

-- The file is the header, the recorded text and, when the transcript is full, the notice. There is
-- none until something is recorded.
abbrev pub Holds : Text → Bool → Option Text → Type 0
Holds body full none = (body ≡ []) × (full ≡ false)
Holds body full (some f) = f ≡ file_header ++ (body ++ ending full)

-- The text that was recorded takes at most 16 MiB, and all of it is there while nothing has failed.
-- The file has no control characters but tabs and line breaks.
pub record IsRecord (t : Transcript) : Type 0 where
  pub body : Text
  pub file : Holds body t.full t.file
  pub shown : IsShown (opened t.file)
  pub bounded : byte_length body ≤ max_transcript_bytes
  pub counted : (is_some t.failure || t.full) ≡ false → byte_length body ≡ t.bytes

all_shown : Text → Bool
all_shown [] = true
all_shown (c ∷ t) = is_shown c && all_shown t

all_shown-IsShown : (t : Text) → all_shown t ≡ true → IsShown t
unfolding all_shown
all_shown-IsShown [] h = tt
all_shown-IsShown (c ∷ t) h = (ground arith, all_shown-IsShown t (ground arith))

header-IsShown : IsShown file_header
unfolding text all_shown
header-IsShown = all_shown-IsShown file_header refl

notice-IsShown : IsShown limit_notice
unfolding text all_shown
notice-IsShown = all_shown-IsShown limit_notice refl

new_transcript-IsRecord : IsRecord new_transcript
unfolding new_transcript utf8
new_transcript-IsRecord = record {
  body = [];
  file = (refl, refl);
  shown = header-IsShown;
  bounded = omega arith;
  counted = λ _. refl;
}

-- What an append to the file starts from.
opened-Holds :
    (body : Text) (file : Option Text) → Holds body false file → opened file ≡ file_header ++ body
opened-Holds body none (e, f) = rw e (sym (append-nil file_header))
opened-Holds body (some f) e = e ∙ ap (λ b. file_header ++ b) (append-nil body)

appended-Holds :
    (body piece : Text) (file : Option Text)
    → Holds body false file
    → opened file ++ piece ≡ file_header ++ (body ++ piece)
appended-Holds body piece file h =
    ap (λ f. f ++ piece) (opened-Holds body file h) ∙ append_assoc file_header body piece

left-Holds :
    (body : Text) (file : Option Text)
    → Holds body false file
    → Holds body false (some (opened file))
left-Holds body file h =
    opened-Holds body file h ∙ ap (λ b. file_header ++ b) (sym (append-nil body))

-- The limit is passed: the notice is the last thing in the file.
add_notice-IsRecord :
    (disk : Write) (t : Transcript) (body : Text)
    → Holds body false t.file
    → IsShown (opened t.file)
    → byte_length body ≤ max_transcript_bytes
    → t.full ≡ false
    → IsRecord (add_piece disk limit_notice true t)
add_notice-IsRecord written t body h s b f = record {
  body = body;
  file = appended-Holds body limit_notice t.file h;
  shown = All-append _ (opened t.file) limit_notice s notice-IsShown;
  bounded = b;
  counted = λ h. ground arith;
}
add_notice-IsRecord (not_opened e) t body h s b f = record {
  body = body;
  file = subst (λ full. Holds body full t.file) (sym f) h;
  shown = s;
  bounded = b;
  counted = λ h. cc;
}
add_notice-IsRecord (not_appended e) t body h s b f = record {
  body = body;
  file = subst (λ full. Holds body full (some (opened t.file))) (sym f) (left-Holds body t.file h);
  shown = s;
  bounded = b;
  counted = λ h. cc;
}

add_text-IsRecord :
    (disk : Write) (piece : Text) (t : Transcript) (body : Text)
    → Holds body false t.file
    → IsShown (opened t.file)
    → IsShown piece
    → byte_length body + byte_length piece ≡ t.bytes
    → t.bytes ≤ max_transcript_bytes
    → t.full ≡ false
    → IsRecord (add_piece disk piece false t)
add_text-IsRecord written piece t body h s p b m f = record {
  body = body ++ piece;
  file =
      appended-Holds body piece t.file h
      ∙ ap (λ b. file_header ++ b) (sym (append-nil (body ++ piece)));
  shown = All-append _ (opened t.file) piece s p;
  bounded = omega (arith, byte_length-append body piece);
  counted = λ h. omega (arith, byte_length-append body piece);
}
add_text-IsRecord (not_opened e) piece t body h s p b m f = record {
  body = body;
  file = subst (λ full. Holds body full t.file) (sym f) h;
  shown = s;
  bounded = omega arith;
  counted = λ h. cc;
}
add_text-IsRecord (not_appended e) piece t body h s p b m f = record {
  body = body;
  file = subst (λ full. Holds body full (some (opened t.file))) (sym f) (left-Holds body t.file h);
  shown = s;
  bounded = omega arith;
  counted = λ h. cc;
}

module _ (strip : Text → Text) where
  append-IsRecord :
      (disk : Write) (value : Text) (t : Transcript)
      → IsRecord t
      → IsRecord (append strip disk value t)
  unfolding append
  append-IsRecord disk value t v =
      let piece = without_control_characters (strip value) in
      let counted = record t { bytes = t.bytes + byte_length piece } in
      elim (Bool-cases (t.disposed || (is_some t.failure || t.full))) [
        | inl e ↦ rw e v
        | inr e ↦
            let not_full : t.full ≡ false = ground arith in
            let holds = subst (λ full. Holds v.body full t.file) not_full v.file in
            let same = v.counted (ground arith) in
            elim (Bool-cases (ltb max_transcript_bytes counted.bytes)) [
              | inl over ↦
                  rw (e, over)
                    (add_notice-IsRecord disk counted v.body holds v.shown v.bounded not_full)
              | inr under ↦
                  rw (e, under)
                    (add_text-IsRecord disk piece counted v.body holds v.shown
                      (without_control_characters-IsShown (strip value)) (omega arith)
                      (ground arith) not_full)
            ]
      ]

  latest-IsRecord :
      (t : Transcript) (s : Text) → IsRecord t → IsRecord (record t { latest_output = s })
  latest-IsRecord t s v = record {
    body = v.body;
    file = v.file;
    shown = v.shown;
    bounded = v.bounded;
    counted = v.counted;
  }

  note-IsRecord :
      (disk : Write) (m : Text) (t : Transcript) → IsRecord t → IsRecord (note strip disk m t)
  unfolding note
  note-IsRecord disk m t v = append-IsRecord disk _ t v

-- The calls that record a cell.
pub data Call : Type 0 where
  begins : Write → ℕ → Text → Call
  outputs : Write → Write → Text → Call
  notes : Write → Text → Call
  finishes : (ℕ → Text) → Write → ℕ → Text → Call

pub call : (Text → Text) → Call → Transcript → Transcript
call strip (begins disk now code) t = begin strip disk now code t
call strip (outputs disk disk2 shown) t = output strip disk disk2 shown t
call strip (notes disk message) t = note strip disk message t
call strip (finishes seconds disk now status) t = finish strip seconds disk now status t

pub calls : (Text → Text) → List Call → Transcript → Transcript
calls strip [] t = t
calls strip (c ∷ cs) t = calls strip cs (call strip c t)

call-IsRecord :
    (strip : Text → Text) (c : Call) (t : Transcript) → IsRecord t → IsRecord (call strip c t)
unfolding call begin output finish
call-IsRecord strip (begins disk now code) t v = append-IsRecord strip disk _ _ (record {
  body = v.body;
  file = v.file;
  shown = v.shown;
  bounded = v.bounded;
  counted = v.counted;
})
call-IsRecord strip (outputs disk disk2 shown) t v =
    elim (Option-cases (strip_prefix t.latest_output shown)) [
      | inl e ↦
          rw (e, output)
            (latest-IsRecord strip _ shown
              (append-IsRecord strip disk2 shown _ (note-IsRecord strip disk _ t v)))
      | inr (rest, e) ↦
          rw (e, output) (latest-IsRecord strip _ shown (append-IsRecord strip disk2 rest t v))
    ]
call-IsRecord strip (notes disk message) t v = note-IsRecord strip disk message t v
call-IsRecord strip (finishes seconds disk now status) t v =
    latest-IsRecord strip _ [] (note-IsRecord strip disk _ t v)

-- Whatever is recorded, and however Node strips escape sequences and the disk fails, the file, once
-- there, is the header, then at most 16 MiB of text, which is as long as the count of the bytes while
-- nothing has failed and the transcript is not full, and then the notice exactly if it is full. It has
-- no control characters but tabs and line breaks.
pub calls-IsRecord :
    (strip : Text → Text) (cs : List Call) → IsRecord (calls strip cs new_transcript)
unfolding calls
calls-IsRecord strip cs = go cs new_transcript new_transcript-IsRecord
  where
    go : (cs : List Call) (t : Transcript) → IsRecord t → IsRecord (calls strip cs t)
    go [] t v = v
    go (c ∷ cs) t v = go cs (call strip c t) (call-IsRecord strip c t v)
