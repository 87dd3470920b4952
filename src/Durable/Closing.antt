-- ===== src/Durable/Closing.antt =====
-- durable/index.ts: `close` stops every kernel, once.
use pi_ipython.Common.{
  Text, none, some, List, [], ◌∷◌, ◌++◌, append_assoc, append-nil, ◌≡◌, refl, sym, subst, arith,
}
use pi_ipython.Persistence.Settings.{Outcome, throws}
use pi_ipython.Durable.{Host, closing_down, runtime_of, close_all, close}

abbrev pub kernels {ℓ} : {R : Type ℓ} → List (Text × R) → List R
kernels [] = []
kernels ((key, r) ∷ rest) = r ∷ kernels rest

module _ {ℓ κ} {R : Type ℓ} {S : Type κ} (stop : R → S → Outcome (Unit {0}) × S)
    (stopped : S → List R)
    (stop_stops : (r : R) (s : S) → stopped (stop r s).1 ≡ stopped s ++ r ∷ []) where
  close_all-kernels :
      (rs : List (Text × R)) (s : S) → stopped (close_all stop rs s).1 ≡ stopped s ++ kernels rs
  unfolding close_all
  close_all-kernels [] s = sym (append-nil (stopped s))
  close_all-kernels ((key, r) ∷ rest) s =
      let one = stop_stops r s in
      let others = close_all-kernels rest (stop r s).1 in
      let joined = append_assoc (stopped s) (r ∷ []) (kernels rest) in ground arith

  -- The kernels were stopped, another call stops nothing more, and there is no kernel for a cell.
  pub IsClosed : Host R → S → Text → R → List Text × (Host R × S) → Type (ℓ ⊔ κ)
  IsClosed h s key created (errors, (after, s1)) =
      (stopped s1 ≡ stopped s ++ kernels h.runtimes)
      × (close stop after s1 ≡ (errors, (after, s1)))
      × (runtime_of key created after ≡ (throws closing_down, after))

  -- When `stopped` lists the kernels that were stopped, the first `close` stops every kernel, in order
  -- and whether or not another one fails to stop; a second one stops nothing and gives the same
  -- errors; and no conversation gets a kernel afterwards.
  pub close-IsClosed :
      (h : Host R) (s : S) (key : Text) (created : R)
      → h.closing ≡ none
      → IsClosed h s key created (close stop h s)
  unfolding close runtime_of IsClosed
  close-IsClosed h s key created e =
      let all = close_all stop h.runtimes s in
      let closed : close stop h s
          ≡ (all.0, (record { runtimes = []; closing = some all.0 }, all.1)) =
        rw (e, close) refl in
      subst (IsClosed h s key created) (sym closed) (close_all-kernels h.runtimes s, refl, refl)
