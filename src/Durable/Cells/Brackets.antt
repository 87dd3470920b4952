-- ===== src/Durable/Cells/Brackets.antt =====
-- durable/index.ts: a cell is announced and ended, and touches the runtime of its conversation only.
use pi_ipython.Common.{
  Text, text_eq, text_eq_refl, false, some, [], ◌∷◌, is_some, ◌≡◌, ◌⊎◌, refl, ap, ◌∙◌, Bool-cases,
  Option-cases, inl, inr,
}
use pi_ipython.Persistence.Settings.{Outcome, Outcome-split, returns, throws}
use pi_ipython.Durable.{Host, lookup, runtime_of}
use pi_ipython.Durable.Runtimes.{lookup-append}
use pi_ipython.Durable.Cells.{
  Services, cell_start, cell_end, Executed, runtime_for, bracket, execute_cell, refuse,
}

-- The conversation has the runtime that was found, which is the one that it had, if any; and the other
-- conversations have theirs.
pub record IsFound {ℓ} {R : Type ℓ} (key : Text) (h : Host R) (o : Outcome R) (after : Host R)
    : Type ℓ where
  pub found : (r : R) → o ≡ returns r → lookup key after.runtimes ≡ some r
  pub same : (r : R) → lookup key h.runtimes ≡ some r → lookup key after.runtimes ≡ some r
  pub others : (k : Text) → text_eq key k ≡ false → lookup k after.runtimes ≡ lookup k h.runtimes
  pub closing : after.closing ≡ h.closing

returned {ℓ} : {A : Type ℓ} {a b : A} → returns a ≡ returns b → a ≡ b
returned e = cc

module _ {ℓ κ} {R : Type ℓ} {S : Type κ} (api : Services R S) where
  runtime_of-IsFound :
      (key : Text) (created : R) (h : Host R)
      → is_some h.closing ≡ false
      → IsFound key h (runtime_of key created h).0 (runtime_of key created h).1
  unfolding runtime_of
  runtime_of-IsFound key created h e = elim (Option-cases (lookup key h.runtimes)) [
    | inr (r, f) ↦
        rw (e, f, runtime_of)
          (record {
            found = λ r1 g. f ∙ ap some (returned g);
            same = λ r1 g. g;
            others = λ k g. refl;
            closing = refl;
          })
    | inl f ↦
        rw (e, f, runtime_of)
          (record {
            found = λ r1 g.
                lookup-append key key created h.runtimes f
                ∙ rw (text_eq_refl key) (ap some (returned g));
            same = λ r1 g. cc;
            others = λ k g. lookup-append key k created h.runtimes f ∙ rw g refl;
            closing = refl;
          })
  ]

  pub runtime_for-IsFound :
      (key cwd : Text) (h : Host R) (s : S)
      → is_some h.closing ≡ false
      → IsFound key h (runtime_for api key cwd h s).0 (runtime_for api key cwd h s).1.0
  unfolding runtime_for
  runtime_for-IsFound key cwd h s e = elim (Option-cases (lookup key h.runtimes)) [
    | inr (r, f) ↦ rw (f, runtime_for) (runtime_of-IsFound key r h e)
    | inl f ↦ elim (Outcome-split (api.create cwd s).0) [
      | inl (m, g) ↦
          rw (f, g, runtime_for)
            (record {
              found = λ r1 t. cc t;
              same = λ r1 t. t;
              others = λ k t. refl;
              closing = refl;
            })
      | inr (r, g) ↦ rw (f, g, runtime_for) (runtime_of-IsFound key r h e)
    ]
  ]

  -- Nothing was done.
  pub record IsRefused (h : Host R) (x : Executed R S) : Type (ℓ ⊔ κ) where
    pub events : x.events ≡ []
    pub outputs : x.outputs ≡ []
    pub host : x.host ≡ h
    pub thrown : (e : Text) × (x.end ≡ throws e)

  pub record IsBracketed (conversation : Text) (h : Host R) (x : Executed R S) : Type (ℓ ⊔ κ) where
    pub events : x.events ≡ cell_start conversation ∷ cell_end conversation ∷ []
    pub runtime : Outcome R
    pub found : IsFound conversation h runtime x.host

  -- On every way out of `execute`, either nothing was announced, sent or kept, and it throws; or the
  -- cell was announced and ended, the runtimes of the other conversations are the same, and so is that
  -- of the conversation, if it had one. When the adapter is closing, it is the former.
  pub execute_cell-IsBracketed :
      (conversation call_id code : Text) (h : Host R) (s : S)
      → let x : Executed R S = execute_cell api conversation call_id code h s in
        (IsRefused h x ⊎ (IsBracketed conversation h x × (is_some h.closing ≡ false)))
  unfolding execute_cell bracket refuse
  execute_cell-IsBracketed conversation call_id code h s =
      elim (Outcome-split (api.agent conversation s).0) [
        | inl (m, e) ↦
            rw (e, execute_cell)
              (inl (record { events = refl; outputs = refl; host = refl; thrown = (m, refl) }))
        | inr (cwd, e) ↦ elim (Bool-cases (is_some h.closing)) [
          | inl f ↦
              rw (e, f, execute_cell)
                (inl (record { events = refl; outputs = refl; host = refl; thrown = (_, refl) }))
          | inr f ↦
              let found = runtime_for-IsFound conversation cwd h (api.agent conversation s).1 f in
              rw (e, f, execute_cell)
                (inr (record { events = refl; runtime = _; found = found }, refl))
        ]
      ]
