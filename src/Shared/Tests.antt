-- ===== src/Shared/Tests.antt =====
-- An environment that two callers wait for, and that fails once.
use pi_ipython.Common.{text, List, [], ◌∷◌}
use pi_ipython.Persistence.Settings.{returns, throws}
use pi_ipython.Shared.{new_shared, keeps_success, Step, calls, settles, run}
use pi_ipython.Shared.Fair.{IsFair, run-IsFair}

abbrev steps : List Step
steps =
    calls 1
    ∷ calls 2
    ∷ settles (throws (text "offline"))
    ∷ calls 1
    ∷ settles (returns tt)
    ∷ calls 3
    ∷ []

run-IsFair_example : IsFair keeps_success steps new_shared (run keeps_success steps new_shared)
run-IsFair_example = run-IsFair keeps_success steps
