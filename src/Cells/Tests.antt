-- ===== src/Cells/Tests.antt =====
-- Concrete cells and words.
use pi_ipython.Common.{
  Bool, false, true, none, Text, text, some, List, [], ◌∷◌, ◌++◌, ◌≡◌, refl, arith, ℕ, suc,
}
use pi_ipython.Common.Utf8.{utf8, byte_length}
use pi_ipython.Protocol.{boolean, object, Fields, field}
use pi_ipython.Persistence.Settings.{throws, returns}
use pi_ipython.Cells.Console.{Outside, Console}
use pi_ipython.Cells.Console.Shutdown.{Ending}
use pi_ipython.Cells.Transcript.{
  without_control_characters, new_transcript, written, not_appended, opened,
}
use pi_ipython.Cells.Transcript.Limits.{IsRecord, begins, outputs, finishes, calls, calls-IsRecord}
use pi_ipython.Cells.Transcript.Streams.{grow, show_all, all_of, HasRoom, show_all-grow}
use pi_ipython.Cells.Shell.{quote_words}
use pi_ipython.Cells.Shell.Words.{bare, read_words, read_words-quote_words}

-- it's, $HOME
read_words-quote_words_example :
    read_words bare (quote_words (text "it's" ∷ text "$HOME" ∷ []))
    ≡ some (text "it's" ∷ text "$HOME" ∷ [])
read_words-quote_words_example = read_words-quote_words (text "it's") (text "$HOME" ∷ [])

calls-IsRecord_example : IsRecord (
    calls
      (λ s. s)
      (begins written 1000 (text "print(1)")
        ∷ outputs written (not_appended (text "ENOSPC")) (text "1\n")
        ∷ finishes (λ n. text "0.1") written 1100 (text "ok")
        ∷ [])
      new_transcript)
calls-IsRecord_example =
    calls-IsRecord (λ s. s)
      (begins written 1000 (text "print(1)")
        ∷ outputs written (not_appended (text "ENOSPC")) (text "1\n")
        ∷ finishes (λ n. text "0.1") written 1100 (text "ok")
        ∷ [])

abbrev pieces : List Text
pieces = text "1\n" ∷ text "2\n" ∷ []

pieces-HasRoom : HasRoom (byte_length (without_control_characters (all_of pieces))) new_transcript
unfolding without_control_characters text utf8 new_transcript
pieces-HasRoom = record { live = refl; works = refl; unfilled = refl; room = omega arith }

show_all-grow_example :
    opened (show_all (grow new_transcript.latest_output pieces) new_transcript).file
    ≡ opened new_transcript.file ++ without_control_characters (all_of pieces)
show_all-grow_example = show_all-grow pieces new_transcript pieces-HasRoom

-- A Herdr that answers every command with a result.
abbrev agreeing : Outside ℕ
agreeing = record {
  exec = λ words n. (returns (record { success = true; stdout = text "{}"; stderr = [] }), suc n);
  parse = λ t. returns (object (field (text "result") (boolean true) Fields.end));
  prepare = λ n. (returns tt, n);
  disposed = λ n. false;
  in_herdr = true;
}

abbrev shown_console : Console ℕ
shown_console = record {
  pane_id = some (text "p1");
  connection_file = some (text "/run/kernel.json");
  failure = none;
  outside = 0;
}

abbrev hidden_console : Console ℕ
hidden_console = record { pane_id = none; connection_file = none; failure = none; outside = 2 }

-- A Herdr that answers nothing; the outside says whether there is a directory.
abbrev silent : Outside Bool
silent = record {
  exec = λ words b. (throws (text "ENOENT"), b);
  parse = λ t. throws (text "JSON");
  prepare = λ b. (returns tt, true);
  disposed = λ b. false;
  in_herdr = true;
}

abbrev ending : Ending Bool
ending = record { dispose = λ b. b; remove_directory = λ b. false }

abbrev stuck_console : Console Bool
stuck_console = record {
  pane_id = some (text "p1");
  connection_file = some (text "/run/kernel.json");
  failure = none;
  outside = true;
}
