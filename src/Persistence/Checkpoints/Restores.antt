-- ===== src/Persistence/Checkpoints/Restores.antt =====
-- core/persistence.ts: the loop of `restoreBranch`.
use pi_ipython.Common.{
  ℕ, zero, suc, ◌+◌, leb, Text, true, Option, none, some, List, [], ◌∷◌, ◌≡◌, ◌⊎◌, inl, inr, arith,
  refl,
}
use pi_ipython.Persistence.Settings.{Outcome, Outcome-split, returns, throws}
use pi_ipython.Persistence.Checkpoints.{
  KernelApi, Checkpoints, first, killed_notice, restore_attempts, on_restore_error, read_summary,
  restore, restore_attempt, restore_loop, restore_branch, run_save, run_saves, run_pending, sync,
  defined,
}

-- A restore that gave the notice, in a kernel that is still the current one after the start that
-- follows it.
pub record IsCurrent {ℓ} {S : Type ℓ} (api : KernelApi S) (candidates : List Text)
    (notice : Option Text) (final : S) : Type ℓ where
  pub before : S
  pub after : S
  pub restored : restore api candidates before ≡ (returns notice, after)
  pub started : api.start after ≡ (returns tt, final)
  pub current : api.generation final ≡ api.generation before

Outcome-cases {ℓ} :
    {A : Type ℓ}
    → (o : Outcome (Option A))
    → ((x : Text) × (o ≡ throws x)) ⊎ (((x : A) × (o ≡ returns (some x))) ⊎ (o ≡ returns none))
Outcome-cases (throws x) = inl (x, refl)
Outcome-cases (returns (some x)) = inr (inl (x, refl))
Outcome-cases (returns none) = inr (inr refl)

module _ {ℓ} {S : Type ℓ} (api : KernelApi S) (candidates : List Text) where
  restore_attempt-IsCurrent :
      (s final : S) (notice : Option Text)
      → restore_attempt api candidates s ≡ (returns (some notice), final)
      → IsCurrent api candidates notice final
  unfolding restore_attempt
  restore_attempt-IsCurrent s final notice e = record {
    before = s;
    after = (restore api candidates s).1;
    restored = ground arith;
    started = ground arith;
    current = ground arith;
  }

  restore_loop-IsCurrent :
      (n : ℕ) (s final : S) (notice : Option Text)
      → restore_loop api n candidates s ≡ (returns notice, final)
      → (notice ≡ some killed_notice) ⊎ IsCurrent api candidates notice final
  unfolding restore_loop
  restore_loop-IsCurrent zero s final notice e = inl (ground arith)
  restore_loop-IsCurrent (suc n) s final notice e =
      elim (Outcome-cases (restore_attempt api candidates s).0) [
        | inl (x, e1) ↦ ground arith
        | inr (inl (x, e1)) ↦ inr (restore_attempt-IsCurrent s final notice (ground arith))
        | inr (inr e1) ↦
            restore_loop-IsCurrent n (restore_attempt api candidates s).1 final notice
              (ground arith)
      ]

  module _ (count : S → ℕ) (start_count : (s : S) → count (api.start s).1 ≡ count s)
      (accept_count : (t : Option Text) (s : S) → count (api.accept t s) ≡ count s)
      (restore_count : (s : S) → count (api.restore candidates s).1 ≡ suc (count s)) where
    restore-count : (s : S) → count (restore api candidates s).1 ≡ suc (count s)
    unfolding restore read_summary on_restore_error
    restore-count s =
        let h = restore_count s in
        let a = accept_count (first candidates) (api.restore candidates s).1 in ground arith

    restore_attempt-count : (s : S) → count (restore_attempt api candidates s).1 ≡ suc (count s)
    unfolding restore_attempt
    restore_attempt-count s =
        let h = restore-count s in let h1 = start_count (restore api candidates s).1 in ground arith

    restore_loop-count :
        (n : ℕ) (s : S) → leb (count (restore_loop api n candidates s).1) (n + count s) ≡ true
    unfolding restore_loop
    restore_loop-count zero s = ground arith
    restore_loop-count (suc n) s =
        let h = restore_attempt-count s in
        let h1 = restore_loop-count n (restore_attempt api candidates s).1 in ground arith

    run_saves-count :
        (save_count : (id : Text) (s : S) → count (api.save id s).1 ≡ count s) (ids : List Text)
        (c : Checkpoints S)
        → count (run_saves api ids c).kernel ≡ count c.kernel
    unfolding run_saves run_save
    run_saves-count save_count [] c = refl
    run_saves-count save_count (id ∷ ids) c =
        let h = save_count id c.kernel in
        let rest = run_saves-count save_count ids (run_save api id c) in ground arith

    -- When a start, a save and an accept run no restore, and a restore runs one, `sync` runs at most three.
    pub sync_restores_at_most :
        (save_count : (id : Text) (s : S) → count (api.save id s).1 ≡ count s) (c : Checkpoints S)
        → leb (count (sync api candidates c).1.kernel) (restore_attempts + count c.kernel) ≡ true
    unfolding sync run_pending restore_branch
    sync_restores_at_most save_count c =
        let saved = run_saves-count save_count c.pending (record c { pending = [] }) in
        let queued = run_saves api c.pending (record c { pending = [] }) in
        let started = start_count queued.kernel in
        let looped = restore_loop-count restore_attempts (api.start queued.kernel).1 in ground arith

-- The notices of a `sync`: the failure of a save, if there was one, then the notice of a restore that
-- the current kernel has run, or that the restore killed the kernel each time.
pub record IsSynced {ℓ} {S : Type ℓ} (api : KernelApi S) (candidates : List Text)
    (failure : Option Text) (notices : List Text) (final : Checkpoints S) : Type ℓ where
  pub notice : Option Text
  pub shown : notices ≡ defined failure (defined notice [])
  pub cleared : final.save_failure ≡ none
  pub settled : (notice ≡ some killed_notice) ⊎ IsCurrent api candidates notice final.kernel

-- When checkpoints are on and `sync` returns notices, they are the failure of the saves that ran
-- before it and the notice of a restore, which is of the kernel that is current at the end or says that
-- three kernels died; the failure is then cleared.
pub sync-IsSynced {ℓ} :
    {S : Type ℓ}
    → (api : KernelApi S) (candidates : List Text) (c final : Checkpoints S) (notices : List Text)
    → c.enabled ≡ true
    → sync api candidates c ≡ (returns notices, final)
    → IsSynced api candidates (run_pending api c).save_failure notices final
unfolding sync restore_branch
sync-IsSynced api candidates c final notices e h =
    let start = api.start (run_pending api c).kernel in
    let loop = restore_loop api restore_attempts candidates start.1 in
    elim (Outcome-split start.0) [
      | inl (x, e1) ↦ ground arith
      | inr (u, e1) ↦ elim (Outcome-split loop.0) [
        | inl (x, e2) ↦ ground arith
        | inr (notice, e2) ↦ record {
          notice = notice;
          shown = ground arith;
          cleared = ground arith;
          settled =
              restore_loop-IsCurrent api candidates restore_attempts start.1 final.kernel notice
                (ground arith);
        }
      ]
    ]
