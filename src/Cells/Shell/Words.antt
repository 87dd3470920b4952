-- ===== src/Cells/Shell/Words.antt =====
-- How a POSIX shell reads what `shellQuote` writes.
use pi_ipython.Common.{
  ℕ, Text, Bool, ◌||◌, Option, none, some, List, [], ◌∷◌, ◌++◌, append_assoc, append-nil, ◌==◌,
  if◌then◌else◌, join, ◌≡◌, refl, sym, ap, ◌∙◌, arith, Bool-cases, inl, inr,
}
use pi_ipython.Cells.Shell.{
  single_quote, double_quote, space, escape_quotes, shell_quote, quote_words,
}

-- Outside quotes, in single quotes, in double quotes.
pub data Mode : Type 0 where
  bare single double : Mode

-- A character, or a text, in front of the first word.
abbrev pub push : ℕ → Option (List Text) → Option (List Text)
push c none = none
push c (some []) = none
push c (some (w ∷ ws)) = some ((c ∷ w) ∷ ws)

abbrev pub prepend : Text → Option (List Text) → Option (List Text)
prepend [] ws = ws
prepend (c ∷ t) ws = push c (prepend t ws)

abbrev pub next_word : Option (List Text) → Option (List Text)
next_word none = none
next_word (some ws) = some ([] ∷ ws)

-- The characters that have a meaning of their own in double quotes: $ ` \
abbrev pub expands : ℕ → Bool
expands c = c == 36 || (c == 96 || c == 92)

-- The words of a command. Outside quotes it takes nothing but spaces and quotes, and in double quotes
-- nothing that expands.
pub read_words : Mode → Text → Option (List Text)
read_words bare [] = some ([] ∷ [])
read_words single [] = none
read_words double [] = none
read_words bare (c ∷ t) =
    let word = next_word (read_words bare t) in
    let quoted = read_words single t in
    let doubled = read_words double t in
    if c == space
    then word
    else if c == single_quote
    then quoted
    else if c == double_quote
    then doubled
    else none
read_words single (c ∷ t) =
    let after = read_words bare t in
    let rest = push c (read_words single t) in if c == single_quote then after else rest
read_words double (c ∷ t) =
    let after = read_words bare t in
    let rest = push c (read_words double t) in
    if c == double_quote then after else if expands c then none else rest

read_words-escape :
    (value rest : Text)
    → read_words single (escape_quotes value ++ single_quote ∷ rest)
      ≡ prepend value (read_words bare rest)
unfolding read_words escape_quotes
read_words-escape [] rest = refl
read_words-escape (c ∷ value) rest = elim (Bool-cases (c == single_quote)) [
  | inl e ↦ ground (arith, read_words-escape value rest)
  | inr e ↦ ground (arith, read_words-escape value rest)
]

read_words-quote :
    (value rest : Text)
    → read_words bare (shell_quote value ++ rest) ≡ prepend value (read_words bare rest)
unfolding read_words shell_quote
read_words-quote value rest = rw (append_assoc) (read_words-escape value rest)

prepend-word : (value : Text) (ws : List Text) → prepend value (some ([] ∷ ws)) ≡ some (value ∷ ws)
prepend-word [] ws = refl
prepend-word (c ∷ value) ws = rw (prepend-word value ws)

-- A shell reads back the words that were quoted, whatever characters they have: quotes, spaces and
-- characters that expand among them.
pub read_words-quote_words :
    (word : Text) (words : List Text)
    → read_words bare (quote_words (word ∷ words)) ≡ some (word ∷ words)
unfolding join read_words
read_words-quote_words word [] =
    ap (read_words bare) (sym (append-nil (shell_quote word)))
    ∙ (read_words-quote word [] ∙ prepend-word word [])
read_words-quote_words word (next ∷ words) =
    read_words-quote word (space ∷ quote_words (next ∷ words))
    ∙ (ap (λ ws. prepend word (next_word ws)) (read_words-quote_words next words)
        ∙ prepend-word word (next ∷ words))
