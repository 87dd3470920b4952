-- ===== src/Cells/Shell.antt =====
-- extensions/cells.ts: `shellQuote` and the command of the console.
pub mod Words
use pi_ipython.Common.{
  ℕ, Text, text, Bool, true, false, List, [], ◌∷◌, ◌++◌, map, ◌==◌, if◌then◌else◌, join,
}

abbrev pub single_quote : ℕ
single_quote = 39

abbrev pub double_quote : ℕ
double_quote = 34

abbrev pub space : ℕ
space = 32

-- '"'"'
abbrev pub quoted_quote : Text
quoted_quote = single_quote ∷ double_quote ∷ single_quote ∷ double_quote ∷ single_quote ∷ []

-- `value.replaceAll("'", …)`.
unfoldable pub escape_quotes : Text → Text
escape_quotes [] = []
escape_quotes (c ∷ t) =
    let rest = escape_quotes t in (if c == single_quote then quoted_quote else c ∷ []) ++ rest

unfoldable pub shell_quote : Text → Text
shell_quote value = single_quote ∷ (escape_quotes value ++ single_quote ∷ [])

abbrev pub quote_words : List Text → Text
quote_words ts = join (space ∷ []) (map shell_quote ts)

-- The words of the console's command: the Jupyter data directory, and the copy of the connection file.
abbrev pub console_words : Text → Text → List Text
console_words jupyter_data_dir connection_copy =
    text "env"
    ∷ (text "JUPYTER_PATH=" ++ jupyter_data_dir)
    ∷ text "uv"
    ∷ text "tool"
    ∷ text "run"
    ∷ text "--no-config"
    ∷ text "--python"
    ∷ text "3.12"
    ∷ text "--from"
    ∷ text "euporie==2.10.4"
    ∷ text "euporie-console"
    ∷ text "--connection-file"
    ∷ connection_copy
    ∷ text "--kernel-name"
    ∷ text "python3"
    ∷ text "--show-remote-inputs"
    ∷ text "--show-remote-outputs"
    ∷ text "--no-mouse-support"
    ∷ text "--no-lsp"
    ∷ []

-- What the pane's shell runs, after it clears the screen.
pub console_command : Text → Text → Text → Text
console_command file jupyter_data_dir connection_copy =
    text "/bin/cat "
    ++ (shell_quote file
        ++ (text "; exec " ++ quote_words (console_words jupyter_data_dir connection_copy)))
