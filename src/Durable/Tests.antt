-- ===== src/Durable/Tests.antt =====
-- A concrete conversation and its kernels.
use pi_ipython.Common.{
  text_eq, true, Text, false, is_some, ◌⊎◌, ℕ, text, Option, none, some, List, [], ◌∷◌, ◌++◌, ◌≡◌,
  refl,
}
use pi_ipython.Persistence.Settings.{Outcome, returns, throws}
use pi_ipython.Durable.{
  Entry, checkpoint, another, Page, Host, lookup, runtime_of, closing_down, close,
}
use pi_ipython.Durable.Pages.{Paged, last, more}
use pi_ipython.Cell.{Execution, report_of}
use pi_ipython.Durable.Runtimes.{asks, closes, nothing, answers, answers_of_view, answers_refines}
use pi_ipython.Durable.Cells.{Services, Answer, answer_of, execute_cell}
use pi_ipython.Durable.Cells.Brackets.{IsRefused, IsBracketed, execute_cell-IsBracketed}
use pi_ipython.Durable.Closing.{IsClosed, close-IsClosed}

-- Two pages.
abbrev scan : Option ℕ → Page ℕ
scan none = record { items = checkpoint (text "b") ∷ another ∷ []; next = some 2 }
scan (some n) = record { items = checkpoint (text "a") ∷ []; next = none }

abbrev pages : List (List Entry)
pages = (checkpoint (text "b") ∷ another ∷ []) ∷ (checkpoint (text "a") ∷ []) ∷ []

scan-Paged : Paged scan none pages
scan-Paged = more none 2 ((checkpoint (text "a") ∷ []) ∷ []) refl (last (some 2) refl)

-- Kernels are numbers; stopping one always fails, and is noted.
abbrev stop : ℕ → List ℕ → Outcome (Unit {0}) × List ℕ
stop r s = (throws (text "stuck"), s ++ r ∷ [])

abbrev host : Host ℕ
host = record { runtimes = (text "c1", 7) ∷ (text "c2", 8) ∷ []; closing = none }

close-IsClosed_example :
    IsClosed stop (λ s. s) (λ r s. refl) host [] (text "c3") 9 (close stop host [])
close-IsClosed_example = close-IsClosed stop (λ s. s) (λ r s. refl) host [] (text "c3") 9 refl

runs_once :
    answers stop
      (asks (text "c1") 7 ∷ asks (text "c1") 8 ∷ closes ∷ asks (text "c1") 9 ∷ [])
      (record { runtimes = []; closing = none })
      []
    ≡ returns 7 ∷ returns 7 ∷ throws closing_down ∷ []
unfolding answers runtime_of lookup close text_eq text
runs_once = refl

answers_refines_example :
    answers stop (asks (text "c1") 7 ∷ closes ∷ []) (record { runtimes = []; closing = none }) []
    ≡ answers_of_view
        (asks (text "c1") 7 ∷ closes ∷ [])
        (record { runtime = nothing; closed = false })
answers_refines_example = answers_refines stop (asks (text "c1") 7 ∷ closes ∷ []) []

-- A kernel that prints twice; saving output fails.
abbrev quiet_cell : Execution
quiet_cell = record {
  result = record {
    status = text "ok";
    execution_count = none;
    error = none;
    output = text "12";
    images = [];
    images_dropped = 0;
  };
  kernel_reset = true;
}

abbrev services : Services ℕ (List Text)
services = record {
  agent = λ c s. (returns (text "/home"), s);
  create = λ cwd s. (returns 7, s);
  candidates = λ c s. (returns s, s);
  sync = λ r ids cwd s. (returns (text "restored" ∷ []), s);
  execute = λ r call_id code cwd s. (text "1" ∷ text "12" ∷ [], (returns quiet_cell, s));
  save = λ r s. (some (text "id"), s);
  append = λ c id s. (returns tt, id ∷ s);
  save_output = λ r t s. none;
  save_error = text "disk full";
}

abbrev empty_host : Host ℕ
empty_host = record { runtimes = []; closing = none }

abbrev cell_answer : Answer
cell_answer = answer_of quiet_cell (
    report_of quiet_cell (text "restored" ∷ [])
      (record { output = text "12"; truncated = false; header = none; full_output_path = none }))

execute_cell-IsBracketed_example :
    IsRefused services empty_host
      (execute_cell services (text "c1") (text "call") (text "12") empty_host [])
    ⊎ (IsBracketed services
          (text "c1")
          empty_host
          (execute_cell services (text "c1") (text "call") (text "12") empty_host [])
        × (is_some empty_host.closing ≡ false))
execute_cell-IsBracketed_example =
    execute_cell-IsBracketed services (text "c1") (text "call") (text "12") empty_host []
