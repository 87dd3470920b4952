-- ===== src/Persistence/Runtime/Chosen.antt =====
-- core/persistence.ts: a runtime with checkpoints and one without, and what its end waits for.
use pi_ipython.Common.{
  if◌then◌else◌, ℕ, Text, Bool, true, false, not, ◌||◌, Option, none, some, List, [], ◌∷◌, ◌++◌,
  All, append_assoc, append-nil, ◌≡◌, refl, sym, ap, ◌∙◌, inl, inr,
}
use pi_ipython.Persistence.Settings.{
  Outcome, Outcome-split, returns, Files, Directory, in_scope, IsReadable, any_refuses, is_off,
  persistence_enabled-any_refuses,
}
use pi_ipython.Persistence.Checkpoints.{KernelApi, Checkpoints, run_save, run_saves, sync, save}
use pi_ipython.Persistence.Runtime.{
  initialize_code, Runtime, runtime_with, create_runtime, take, close_checkpoints, close_runtime,
}

-- Checkpoints are off: no startup code, and `sync` and `save` do nothing.
pub record IsOff {ℓ} {S : Type ℓ} (api : KernelApi S) (r : Runtime S) : Type ℓ where
  pub code : r.startup_code ≡ []
  pub synced :
      (candidates : List Text) → sync api candidates r.checkpoints ≡ (returns [], r.checkpoints)
  pub saved : (id : Text) → save api id r.checkpoints ≡ (none, r.checkpoints)

-- Checkpoints are on, in this directory: each `save` has an ID, and is queued.
pub record IsOn {ℓ} {S : Type ℓ} (api : KernelApi S) (quote : Text → Text) (base : Text)
    (r : Runtime S) : Type ℓ where
  pub code : r.startup_code ≡ initialize_code quote base ∷ []
  pub saved :
      (id : Text)
      → save api id r.checkpoints ≡ (some id, record r.checkpoints { pending = id ∷ [] })

pub IsChosen {ℓ} :
    {S : Type ℓ} → KernelApi S → (Text → Text) → Text → Bool → Outcome (Runtime S) → Type ℓ
IsChosen {S} api quote base true o = (r : Runtime S) × (o ≡ returns r) × IsOff api r
IsChosen {S} api quote base false o = (r : Runtime S) × (o ≡ returns r) × IsOn api quote base r

module _ {ℓ} {S : Type ℓ} (api : KernelApi S) where
  runtime_with-IsChosen :
      (quote : Text → Text) (base : Text) (kernel : S) (off : Bool)
      → IsChosen api quote base off (runtime_with quote (returns base) kernel (not off))
  unfolding IsChosen runtime_with sync save
  runtime_with-IsChosen quote base kernel true =
      (_, refl, record { code = refl; synced = λ c. refl; saved = λ id. refl })
  runtime_with-IsChosen quote base kernel false =
      (_, refl, record { code = refl; saved = λ id. refl })

  -- When the configurations from the working directory up to the Git root can be read, and the cache
  -- directory can be made, `createRuntime` makes a runtime; it has checkpoints, which are initialised
  -- when the kernel starts, exactly if neither the variable nor a configuration turns them off; and
  -- where they are off, `sync` and `save` never use the kernel.
  pub create_runtime-IsChosen :
      (files : Files) (quote : Text → Text) (variable : Option Text) (cwd : Directory) (base : Text)
      (kernel : S)
      → All (IsReadable files) (in_scope files cwd)
      → IsChosen api quote base
          (is_off files variable || any_refuses files (in_scope files cwd))
          (create_runtime files quote variable cwd (returns base) kernel)
  unfolding create_runtime
  create_runtime-IsChosen files quote variable cwd base kernel h =
      rw (persistence_enabled-any_refuses files variable cwd h, create_runtime)
        (runtime_with-IsChosen quote base kernel
          (is_off files variable || any_refuses files (in_scope files cwd)))

module _ {ℓ} {S : Type ℓ} (api : KernelApi S) (shutdown : S → Outcome (Unit {0}) × S)
    (tried : S → List Text)
    (save_tries : (id : Text) (s : S) → tried (api.save id s).1 ≡ tried s ++ id ∷ []) where
  run_save-tried :
      (id : Text) (c : Checkpoints S) → tried (run_save api id c).kernel ≡ tried c.kernel ++ id ∷ []
  unfolding run_save
  run_save-tried id c = elim (Outcome-split (api.save id c.kernel).0) [
    | inl (m, e) ↦ rw (e, run_save) (save_tries id c.kernel)
    | inr (v, e) ↦ rw (e, run_save) (save_tries id c.kernel)
  ]

  run_saves-tried :
      (ids : List Text) (c : Checkpoints S)
      → tried (run_saves api ids c).kernel ≡ tried c.kernel ++ ids
  unfolding run_saves
  run_saves-tried [] c = sym (append-nil (tried c.kernel))
  run_saves-tried (id ∷ ids) c =
      run_saves-tried ids (run_save api id c)
      ∙ (ap (λ ts. ts ++ ids) (run_save-tried id c) ∙ append_assoc (tried c.kernel) (id ∷ []) ids)

  -- `save`, once for each cell, with these IDs.
  pub queue : List Text → Checkpoints S → Checkpoints S
  queue [] c = c
  queue (id ∷ ids) c = queue ids (save api id c).1

  save_on :
      (id : Text) (c : Checkpoints S)
      → c.enabled ≡ true
      → (save api id c).1 ≡ record c { pending = c.pending ++ id ∷ [] }
  unfolding save
  save_on id c on =
      ap
        (λ b.
          (if◌then◌else◌ {A = Option Text × Checkpoints S} b
            (some id, record c { pending = c.pending ++ id ∷ [] }) (none, c)).1)
        on

  queue-pending :
      (ids : List Text) (c : Checkpoints S)
      → c.enabled ≡ true
      → ((queue ids c).pending ≡ c.pending ++ ids) × ((queue ids c).kernel ≡ c.kernel)
  unfolding queue
  queue-pending [] c on = (sym (append-nil c.pending), refl)
  queue-pending (id ∷ ids) c on =
      let (pending, kernel) = queue-pending ids (record c { pending = c.pending ++ id ∷ [] }) on in
      let same = ap (queue ids) (save_on id c on) in
      (
        ap (λ x. x.pending) same ∙ (pending ∙ append_assoc c.pending (id ∷ []) ids),
        ap (λ x. x.kernel) same ∙ kernel,
      )

  -- The end of a runtime: the kernel `last`, which was asked for these saves, was shut down.
  pub record IsEnded (s : S) (ids : List Text) (o : Outcome (Unit {0})) (after : Checkpoints S)
      : Type ℓ where
    pub last : S
    pub waited : tried last ≡ tried s ++ ids
    pub outcome : o ≡ (shutdown last).0
    pub kernel : after.kernel ≡ (shutdown last).1

  -- When `tried` lists the saves that the kernel was asked for, and checkpoints are on and none is
  -- queued: however `save` is then called, `close` shuts the kernel down, whatever becomes of the
  -- saves, after the first `done` of them, for which it waited, were tried in the order of the calls;
  -- and it fails exactly as the shutdown does.
  pub close_runtime-IsEnded :
      (done : ℕ) (ids : List Text) (c : Checkpoints S)
      → c.enabled ≡ true
      → c.pending ≡ []
      → let x : Outcome (Unit {0}) × Checkpoints S =
          close_runtime api shutdown done (queue ids c) in
        IsEnded c.kernel (take done ids) x.0 x.1
  unfolding close_runtime close_checkpoints
  close_runtime-IsEnded done ids c on empty =
      let (pending, kernel) = queue-pending ids c on in
      let queued : (queue ids c).pending ≡ ids = pending ∙ ap (λ ts. ts ++ ids) empty in
      record {
        last = (run_saves api (take done (queue ids c).pending) (queue ids c)).kernel;
        waited =
            run_saves-tried (take done (queue ids c).pending) (queue ids c)
            ∙ (ap (λ s. tried s ++ take done (queue ids c).pending) kernel
                ∙ ap (λ ts. tried c.kernel ++ take done ts) queued);
        outcome = refl;
        kernel = refl;
      }
