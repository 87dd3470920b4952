-- ===== src/Extension/Session/Held/Ends.antt =====
-- extensions/ipython.ts: the end of a session leaves no kernel, and no listener of it.
use pi_ipython.Common.{
  subst, Bool, false, ◌||◌, ◌==◌, All, ℕ, ◌-◌, none, some, List, [], ◌∷◌, ◌++◌, ◌≡◌, refl, ap, ◌∙◌,
  arith, Bool-cases, Option-cases, inl, inr,
}
use pi_ipython.Extension.Session.{Services, Running, Session}
use pi_ipython.Extension.Session.Console.{off, session_shutdown}
use pi_ipython.Extension.Session.Held.{IsCount, own, IsApart, IsHeld}

-- Does the process listen with this listener?
unfoldable pub listens : ℕ → List ℕ → Bool
listens id [] = false
listens id (i ∷ rest) = (i == id) || listens id rest

module _ {ℓ κ} {R : Type ℓ} {S : Type κ} (api : Services R S) where
  module _ (made : S → ℕ) (c : IsCount api made) (outside : List ℕ) (signalled : Bool) where
    pub off_first : (id : ℕ) (rest : List ℕ) → off id (id ∷ rest) ≡ rest
    unfolding off
    off_first id rest = ground arith

    pub off-apart :
        (id : ℕ) (others : List ℕ) → All (λ i. (i == id) ≡ false) others → off id others ≡ others
    unfolding off
    off-apart id [] h = refl
    off-apart id (i ∷ rest) (h, hs) = rw h (ap (λ t. i ∷ t) (off-apart id rest hs))

    pub listens-apart :
        (id : ℕ) (others : List ℕ) → All (λ i. (i == id) ≡ false) others → listens id others ≡ false
    unfolding listens
    listens-apart id [] h = refl
    listens-apart id (i ∷ rest) (h, hs) = rw h (listens-apart id rest hs)

    -- Without the listener of its kernel, the others are left.
    off-own :
        (r : Running R) (others : List ℕ)
        → IsApart (some r) others
        → off r.sigterm (own signalled (some r) ++ others) ≡ others
    off-own r others h = elim (Bool-cases signalled) [
      | inl b ↦ rw b (off-apart r.sigterm others h)
      | inr b ↦ rw b (off_first r.sigterm others)
    ]

    pub current-IsApart :
        (r : Running R) (s : Session R S)
        → IsHeld api made c outside signalled s
        → s.current ≡ some r
        → IsApart (some r) outside
    current-IsApart r s v e = subst (λ k. IsApart k outside) e v.apart

    -- The end of a session leaves no kernel, and no listener.
    pub session_shutdown-ends :
        (s : Session R S)
        → IsHeld api made c outside signalled s
        → ((session_shutdown api s).1.current ≡ none)
          × IsHeld api made c outside false (session_shutdown api s).1
    unfolding session_shutdown
    session_shutdown-ends s v = elim (Option-cases s.current) [
      | inl e ↦
          rw (e, session_shutdown)
            (
              refl,
              record {
                listening = rw e at v.listening;
                held = λ h. cc;
                apart = tt;
                older = v.older;
                counted = c.shut s.services ∙ (rw e at v.counted);
              },
            )
      | inr (r, e) ↦
          rw (e, session_shutdown)
            (
              refl,
              record {
                listening =
                    ap (off r.sigterm) (rw e at v.listening)
                    ∙ off-own r outside (current-IsApart r s v e);
                held = λ h. cc;
                apart = tt;
                older = v.older;
                counted =
                    c.shut (api.close r.runtime s.services).1
                    ∙ (c.closed r.runtime s.services ∙ ap (λ n. n - 1) (rw e at v.counted));
              },
            )
    ]
