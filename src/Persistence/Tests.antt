-- ===== src/Persistence/Tests.antt =====
-- Concrete directories and kernels.
use pi_ipython.Common.{
  Text, List, ◌||◌, ℕ, suc, ◌+◌, leb, text, true, false, not, none, some, [], ◌∷◌, ◌++◌, ◌≡◌, All,
  refl,
}
use pi_ipython.Protocol.{boolean, object, Fields, field}
use pi_ipython.Persistence.Settings.{
  Directory, Outcome, returns, throws, missing, contents, present, absent, Files, refuses,
  persistence_enabled, in_scope, any_refuses, IsReadable, is_off, persistence_enabled-any_refuses,
}
use pi_ipython.Persistence.Checkpoints.{
  KernelApi, Checkpoints, killed_notice, restore_attempts, restore, on_restore_error,
  restore_attempt, restore_loop, restore_branch, run_pending, run_saves, sync, save,
}
use pi_ipython.Persistence.Runtime.{create_runtime, close_runtime}
use pi_ipython.Persistence.Runtime.Chosen.{
  IsChosen, create_runtime-IsChosen, queue, IsEnded, close_runtime-IsEnded,
}
use pi_ipython.Persistence.Checkpoints.Restores.{IsSynced, sync_restores_at_most, sync-IsSynced}
use pi_ipython.Persistence.Checkpoints.Saves.{IsTold, failed_save-IsTold}

-- /p/q, where /p is a Git root with `"persistence": false`.
abbrev opted_out : Fields
opted_out = field (text "persistence") (boolean false) Fields.end

abbrev files : Files
files = record {
  config = λ d. elim d [
    | [] ↦ missing
    | name ∷ up ↦ elim up [ [] ↦ contents (text "{}") | n ∷ u ↦ missing ]
  ];
  git = λ d. elim d [ [] ↦ absent | name ∷ up ↦ elim up [ [] ↦ present | n ∷ u ↦ absent ] ];
  parse = λ t. returns (object opted_out);
  shown = λ d. text "?";
}

abbrev directory : Directory
directory = text "q" ∷ text "p" ∷ []

directory-IsReadable : All (IsReadable files) (in_scope files directory)
unfolding in_scope refuses
directory-IsReadable = ((λ e h. cc, λ e h. cc), ((λ e h. cc, λ e h. cc), tt))

persistence_enabled-any_refuses_example :
    persistence_enabled files (some (text "1")) directory
    ≡ returns (not (is_off files (some (text "1")) || any_refuses files (in_scope files directory)))
persistence_enabled-any_refuses_example =
    persistence_enabled-any_refuses files (some (text "1")) directory directory-IsReadable

-- A kernel that dies in every restore, and cannot save: its state counts the restores.
abbrev dying : KernelApi ℕ
dying = record {
  start = λ n. (returns tt, n);
  generation = λ n. n;
  restore = λ candidates n. (throws (text "killed"), suc n);
  accept = λ id n. n;
  save = λ id n. (throws (text "disk full"), n);
  aborted = λ n. false;
  shown = λ n. text "1";
}

abbrev checkpoints : Checkpoints ℕ
checkpoints = record { kernel = 0; enabled = true; save_failure = none; pending = [] }

abbrev gave_up : Checkpoints ℕ
gave_up = record checkpoints { kernel = 3 }

dies_three_times : sync dying (text "id" ∷ []) checkpoints ≡ (returns (killed_notice ∷ []), gave_up)
unfolding sync run_pending run_saves restore_branch restore_loop restore_attempt restore
    on_restore_error
dies_three_times = refl

sync_restores_at_most_example :
    leb (sync dying [] checkpoints).1.kernel (restore_attempts + 0) ≡ true
sync_restores_at_most_example =
    sync_restores_at_most dying [] (λ n. n) (λ s. refl) (λ t s. refl) (λ s. refl) (λ id s. refl)
      checkpoints

sync-IsSynced_example :
    IsSynced dying
      (text "id" ∷ [])
      (run_pending dying checkpoints).save_failure
      (killed_notice ∷ [])
      gave_up
sync-IsSynced_example =
    sync-IsSynced dying (text "id" ∷ []) checkpoints gave_up (killed_notice ∷ []) refl
      dies_three_times

failed_save-IsTold_example :
    IsTold (text "disk full") (sync dying [] (save dying (text "id") checkpoints).1)
failed_save-IsTold_example =
    failed_save-IsTold dying [] (text "id") (text "disk full") checkpoints refl refl refl

create_runtime-IsChosen_example :
    IsChosen dying
      (λ t. t)
      (text "/cache")
      (is_off files (some (text "1")) || any_refuses files (in_scope files directory))
      (create_runtime files (λ t. t) (some (text "1")) directory (returns (text "/cache")) 0)
create_runtime-IsChosen_example =
    create_runtime-IsChosen dying files (λ t. t) (some (text "1")) directory (text "/cache") 0
      directory-IsReadable

-- A kernel that fails every save, and lists them.
abbrev listing : KernelApi (List Text)
listing = record {
  start = λ s. (returns tt, s);
  generation = λ s. 0;
  restore = λ candidates s. (throws (text "busy"), s);
  accept = λ id s. s;
  save = λ id s. (throws (text "disk full"), s ++ id ∷ []);
  aborted = λ s. false;
  shown = λ n. text "1";
}

abbrev unsaved : Checkpoints (List Text)
unsaved = record { kernel = []; enabled = true; save_failure = none; pending = [] }

abbrev stuck : List Text → Outcome (Unit {0}) × List Text
stuck s = (throws (text "stuck"), s)

close_runtime-IsEnded_example :
    IsEnded listing stuck
      (λ s. s)
      (λ id s. refl)
      []
      (text "a" ∷ [])
      (close_runtime listing stuck 1
        (queue listing stuck (λ s. s) (λ id s. refl) (text "a" ∷ text "b" ∷ []) unsaved)).0
      (close_runtime listing stuck 1
        (queue listing stuck (λ s. s) (λ id s. refl) (text "a" ∷ text "b" ∷ []) unsaved)).1
close_runtime-IsEnded_example =
    close_runtime-IsEnded listing stuck (λ s. s) (λ id s. refl) 1 (text "a" ∷ text "b" ∷ []) unsaved
      refl refl
