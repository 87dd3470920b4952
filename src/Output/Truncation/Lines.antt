-- ===== src/Output/Truncation/Lines.antt =====
-- The lines of a text, and that they make up the text again.
use pi_ipython.Common.{
  ℕ, ◌<◌, Text, Bool, true, false, List, [], ◌∷◌, ◌++◌, ◌==◌, All, ◌≡◌, refl, ap, ◌∙◌, arith, inl,
  inr, Bool-cases, join, ends_with_newline, append-nil,
}
use pi_ipython.Common.Utf8.{IsText}
use pi_ipython.Output.Truncation.{newline, push_char, split_lines, drop_last, lines_of}
use pi_ipython.Output.Truncation.Bounds.{joined}

join-push_char : (c : ℕ) (ls : List Text) → joined (push_char c ls) ≡ c ∷ joined ls
unfolding join
join-push_char c [] = refl
join-push_char c (l ∷ []) = refl
join-push_char c (l ∷ m ∷ ls) = refl

split_lines_some : (s : Text) → (l : Text) × (ls : List Text) × (split_lines s ≡ l ∷ ls)
unfolding split_lines
split_lines_some [] = ([], [], refl)
split_lines_some (c ∷ s) = elim (Bool-cases (c == newline)) [
  | inl e ↦ ([], split_lines s, rw e)
  | inr e ↦ let (l, ls, h) = split_lines_some s in (c ∷ l, ls, rw e (rw h))
]

-- A line break before some lines.
joined_break :
    (ls : List Text) {l : Text} {ls' : List Text}
    → ls ≡ l ∷ ls'
    → joined ([] ∷ ls) ≡ newline ∷ joined ls
unfolding join
joined_break [] e = cc
joined_break (m ∷ ls) e = refl

joined-split_lines : (s : Text) → joined (split_lines s) ≡ s
joined-split_lines [] = unfold join split_lines in refl
joined-split_lines (c ∷ s) = split_step s c (joined-split_lines s)
  where
    split_step :
        (s : Text) (c : ℕ) → joined (split_lines s) ≡ s → joined (split_lines (c ∷ s)) ≡ c ∷ s
    split_step s c ih = elim (Bool-cases (c == newline)) [
      | inl e ↦
          let (l, ls, h) = split_lines_some s in
          unfold split_lines in
          rw e
            (joined_break (split_lines s) h ∙ ap (◌∷◌ newline) ih ∙ ap (λ x. x ∷ s) (ground arith))
      | inr e ↦ unfold split_lines in rw e (join-push_char c (split_lines s) ∙ ap (◌∷◌ c) ih)
    ]

-- A text that ends with a line break has two lines at least.
split_lines_two :
    (s : Text)
    → ends_with_newline s ≡ true
    → (l : Text) × (m : Text) × (ls : List Text) × (split_lines s ≡ l ∷ m ∷ ls)
unfolding split_lines ends_with_newline
split_lines_two [] h = cc
split_lines_two (c ∷ []) h = ([], [], [], rw h)
split_lines_two (c ∷ d ∷ s) h = elim (Bool-cases (c == newline)) [
  | inl e ↦ let (l, m, ls, k) = split_lines_two (d ∷ s) h in ([], l, m ∷ ls, rw e (ap (◌∷◌ []) k))
  | inr e ↦
      let (l, m, ls, k) = split_lines_two (d ∷ s) h in (c ∷ l, m, ls, rw e (ap (push_char c) k))
]

drop_last_break :
    (c : ℕ) (s : Text) (ls : List Text) {l m : Text} {ls' : List Text}
    → ls ≡ l ∷ m ∷ ls'
    → joined (drop_last ls) ++ newline ∷ [] ≡ s
    → (joined (drop_last ([] ∷ ls)) ++ newline ∷ [] ≡ newline ∷ s)
      × (joined (drop_last (push_char c ls)) ++ newline ∷ [] ≡ c ∷ s)
unfolding join
drop_last_break c s [] e h = (cc, cc)
drop_last_break c s (k ∷ []) e h = (cc, cc)
drop_last_break c s (k ∷ n ∷ []) e h = (ap (◌∷◌ newline) h, ap (◌∷◌ c) h)
drop_last_break c s (k ∷ n ∷ o ∷ ls) e h = (ap (◌∷◌ newline) h, ap (◌∷◌ c) h)

joined-drop_last :
    (s : Text) → ends_with_newline s ≡ true → joined (drop_last (split_lines s)) ++ newline ∷ [] ≡ s
unfolding split_lines ends_with_newline
joined-drop_last [] h = cc
joined-drop_last (c ∷ []) h = rw h (unfold join in ground arith)
joined-drop_last (c ∷ d ∷ s) h = elim (Bool-cases (c == newline)) [
  | inl e ↦
      let (l, m, ls, k) = split_lines_two (d ∷ s) h in
      rw e (
        (drop_last_break c (d ∷ s) (split_lines (d ∷ s)) k (joined-drop_last (d ∷ s) h)).0
        ∙ ap (λ x. x ∷ d ∷ s) (ground arith))
  | inr e ↦
      let (l, m, ls, k) = split_lines_two (d ∷ s) h in
      rw e (drop_last_break c (d ∷ s) (split_lines (d ∷ s)) k (joined-drop_last (d ∷ s) h)).1
]

abbrev pub last_break : Bool → Text
last_break true = newline ∷ []
last_break false = []

-- The lines of a text, joined by line breaks, are the text without a line break at its end.
pub joined-lines_of : (s : Text) → joined (lines_of s) ++ last_break (ends_with_newline s) ≡ s
joined-lines_of [] = unfold lines_of join ends_with_newline in refl
joined-lines_of (c ∷ s) = elim (Bool-cases (ends_with_newline (c ∷ s))) [
  | inl e ↦ unfold lines_of in rw e (joined-drop_last (c ∷ s) e)
  | inr e ↦ unfold lines_of in rw e (append-nil _ ∙ joined-split_lines (c ∷ s))
]

push_char-IsText :
    (c : ℕ) (ls : List Text) → c < 1114112 → All IsText ls → All IsText (push_char c ls)
push_char-IsText c [] h k = ((h, tt), tt)
push_char-IsText c (l ∷ ls) h (k, ks) = ((h, k), ks)

split_lines-IsText : (s : Text) → IsText s → All IsText (split_lines s)
unfolding split_lines
split_lines-IsText [] h = (tt, tt)
split_lines-IsText (c ∷ s) (h, hs) = elim (Bool-cases (c == newline)) [
  | inl e ↦ rw e (tt, split_lines-IsText s hs)
  | inr e ↦ rw e (push_char-IsText c (split_lines s) h (split_lines-IsText s hs))
]

drop_last-IsText : (ls : List Text) → All IsText ls → All IsText (drop_last ls)
drop_last-IsText [] h = tt
drop_last-IsText (l ∷ []) h = tt
drop_last-IsText (l ∷ m ∷ ls) (h, hs) = (h, drop_last-IsText (m ∷ ls) hs)

pub lines_of-IsText : (s : Text) → IsText s → All IsText (lines_of s)
unfolding lines_of
lines_of-IsText [] h = tt
lines_of-IsText (c ∷ s) h = elim (Bool-cases (ends_with_newline (c ∷ s))) [
  | inl e ↦ rw e (drop_last-IsText (split_lines (c ∷ s)) (split_lines-IsText (c ∷ s) h))
  | inr e ↦ rw e (split_lines-IsText (c ∷ s) h)
]
