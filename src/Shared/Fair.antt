-- ===== src/Shared/Fair.antt =====
-- Every caller of a shared promise is answered once, and the work runs once at a time.
use pi_ipython.Common.{
  ℕ, ◌+◌, Bool, List, [], ◌∷◌, ◌++◌, ◌==◌, if◌then◌else◌, ◌≡◌, refl, arith, Bool-cases, inl, inr,
}
use pi_ipython.Persistence.Settings.{Outcome}
use pi_ipython.Shared.{
  Promised, absent, running, settled, Shared, new_shared, answer_all, on_call, on_settle, Step,
  calls, settles, step, run,
}

-- How often a caller waits, was answered, and called.
pub waits : ℕ → List ℕ → ℕ
waits caller [] = 0
waits caller (c ∷ cs) = (if c == caller then 1 else 0) + waits caller cs

pub answers : ℕ → List (ℕ × Outcome (Unit {0})) → ℕ
answers caller [] = 0
answers caller ((c, o) ∷ rest) = (if c == caller then 1 else 0) + answers caller rest

pub called : ℕ → List Step → ℕ
called caller [] = 0
called caller (calls c ∷ xs) = (if c == caller then 1 else 0) + called caller xs
called caller (settles o ∷ xs) = called caller xs

waits-append : (n : ℕ) (a b : List ℕ) → waits n (a ++ b) ≡ waits n a + waits n b
unfolding waits
waits-append n [] b = omega arith
waits-append n (c ∷ a) b = omega (arith, waits-append n a b)

answers-append :
    (n : ℕ) (a b : List (ℕ × Outcome (Unit {0}))) → answers n (a ++ b) ≡ answers n a + answers n b
unfolding answers
answers-append n [] b = omega arith
answers-append n ((c, o) ∷ a) b = omega (arith, answers-append n a b)

answers-answer_all :
    (n : ℕ) (o : Outcome (Unit {0})) (cs : List ℕ) → answers n (answer_all o cs) ≡ waits n cs
unfolding answers answer_all waits
answers-answer_all n o [] = refl
answers-answer_all n o (c ∷ cs) = omega (arith, answers-answer_all n o cs)

-- How often the work ended and the promise was dropped.
dropped : (Outcome (Unit {0}) → Bool) → Promised → Outcome (Unit {0}) → ℕ
dropped keeps absent o = 0
dropped keeps running o = if keeps o then 0 else 1
dropped keeps (settled p) o = 0

pub drops : (Outcome (Unit {0}) → Bool) → List Step → Shared → ℕ
drops keeps [] s = 0
drops keeps (calls caller ∷ xs) s = drops keeps xs (on_call caller s)
drops keeps (settles o ∷ xs) s = dropped keeps s.promise o + drops keeps xs (on_settle keeps o s)

abbrev pub held : Promised → ℕ
held absent = 0
held running = 1
held (settled o) = 1

-- Callers wait only while the work runs.
abbrev pub WaitsFor : Promised → List ℕ → Type 0
WaitsFor absent cs = cs ≡ []
WaitsFor running cs = Unit
WaitsFor (settled o) cs = cs ≡ []

pub record IsFair (keeps : Outcome (Unit {0}) → Bool) (xs : List Step) (s after : Shared)
    : Type 0 where
  pub runs : after.runs + held s.promise ≡ s.runs + (drops keeps xs s + held after.promise)
  pub each :
      (n : ℕ)
      → waits n after.waiting + answers n after.answered
        ≡ waits n s.waiting + answers n s.answered + called n xs
  pub idle : WaitsFor after.promise after.waiting

on_call-each :
    (n caller : ℕ) (s : Shared)
    → waits n (on_call caller s).waiting + answers n (on_call caller s).answered
      ≡ waits n s.waiting + answers n s.answered + (if caller == n then 1 else 0)
unfolding on_call waits answers
on_call-each n caller s = go s.promise refl
  where
    go :
        (p : Promised)
        → s.promise ≡ p
        → waits n (on_call caller s).waiting + answers n (on_call caller s).answered
          ≡ waits n s.waiting + answers n s.answered + (if caller == n then 1 else 0)
    go absent e = rw (e, on_call) (omega (arith, waits-append n s.waiting (caller ∷ [])))
    go running e = rw (e, on_call) (omega (arith, waits-append n s.waiting (caller ∷ [])))
    go (settled o) e =
        rw (e, on_call) (omega (arith, answers-append n s.answered ((caller, o) ∷ [])))

on_settle-each :
    (keeps : Outcome (Unit {0}) → Bool) (o : Outcome (Unit {0})) (n : ℕ) (s : Shared)
    → waits n (on_settle keeps o s).waiting + answers n (on_settle keeps o s).answered
      ≡ waits n s.waiting + answers n s.answered
unfolding on_settle waits
on_settle-each keeps o n s = go s.promise refl
  where
    go :
        (p : Promised)
        → s.promise ≡ p
        → waits n (on_settle keeps o s).waiting + answers n (on_settle keeps o s).answered
          ≡ waits n s.waiting + answers n s.answered
    go absent e = rw (e, on_settle) refl
    go running e =
        rw (e, on_settle)
          (omega (
            arith,
            answers-append n s.answered (answer_all o s.waiting),
            answers-answer_all n o s.waiting,
          ))
    go (settled p) e = rw (e, on_settle) refl

on_call-runs :
    (caller : ℕ) (s : Shared)
    → (on_call caller s).runs + held s.promise ≡ s.runs + held (on_call caller s).promise
unfolding on_call
on_call-runs caller s = go s.promise refl
  where
    go :
        (p : Promised)
        → s.promise ≡ p
        → (on_call caller s).runs + held s.promise ≡ s.runs + held (on_call caller s).promise
    go absent e = rw (e, on_call) (omega arith)
    go running e = rw (e, on_call) (rw e refl)
    go (settled o) e = rw (e, on_call) (rw e refl)

on_settle-runs :
    (keeps : Outcome (Unit {0}) → Bool) (o : Outcome (Unit {0})) (s : Shared)
    → (on_settle keeps o s).runs + held s.promise
      ≡ s.runs + (dropped keeps s.promise o + held (on_settle keeps o s).promise)
unfolding on_settle dropped
on_settle-runs keeps o s = go s.promise refl
  where
    go :
        (p : Promised)
        → s.promise ≡ p
        → (on_settle keeps o s).runs + held s.promise
          ≡ s.runs + (dropped keeps s.promise o + held (on_settle keeps o s).promise)
    go absent e = rw (e, on_settle) (rw e (omega arith))
    go running e = elim (Bool-cases (keeps o)) [
      | inl k ↦ rw (e, k, on_settle) (omega arith)
      | inr k ↦ rw (e, k, on_settle) (omega arith)
    ]
    go (settled p) e = rw (e, on_settle) (rw e (omega arith))

on_call-idle :
    (caller : ℕ) (s : Shared)
    → WaitsFor s.promise s.waiting
    → WaitsFor (on_call caller s).promise (on_call caller s).waiting
unfolding on_call
on_call-idle caller s h = go s.promise refl
  where
    go :
        (p : Promised)
        → s.promise ≡ p
        → WaitsFor (on_call caller s).promise (on_call caller s).waiting
    go absent e = rw (e, on_call) tt
    go running e = rw (e, on_call) (rw e tt)
    go (settled o) e = rw (e, on_call) (rw e (rw e at h))

on_settle-idle :
    (keeps : Outcome (Unit {0}) → Bool) (o : Outcome (Unit {0})) (s : Shared)
    → WaitsFor s.promise s.waiting
    → WaitsFor (on_settle keeps o s).promise (on_settle keeps o s).waiting
unfolding on_settle
on_settle-idle keeps o s h = go s.promise refl
  where
    go :
        (p : Promised)
        → s.promise ≡ p
        → WaitsFor (on_settle keeps o s).promise (on_settle keeps o s).waiting
    go absent e = rw (e, on_settle) (rw e (rw e at h))
    go running e = elim (Bool-cases (keeps o)) [
      | inl k ↦ rw (e, k, on_settle) refl
      | inr k ↦ rw (e, k, on_settle) refl
    ]
    go (settled p) e = rw (e, on_settle) (rw e (rw e at h))

run-IsFair_from :
    (keeps : Outcome (Unit {0}) → Bool) (xs : List Step) (s : Shared)
    → WaitsFor s.promise s.waiting
    → IsFair keeps xs s (run keeps xs s)
unfolding run step drops called
run-IsFair_from keeps [] s h = record { runs = omega arith; each = λ n. omega arith; idle = h }
run-IsFair_from keeps (calls caller ∷ xs) s h =
    let rest = run-IsFair_from keeps xs (on_call caller s) (on_call-idle caller s h) in
    record {
      runs = omega (arith, rest.runs, on_call-runs caller s);
      each = λ n. omega (arith, rest.each n, on_call-each n caller s);
      idle = rest.idle;
    }
run-IsFair_from keeps (settles o ∷ xs) s h =
    let rest = run-IsFair_from keeps xs (on_settle keeps o s) (on_settle-idle keeps o s h) in
    record {
      runs = omega (arith, rest.runs, on_settle-runs keeps o s);
      each = λ n. omega (arith, rest.each n, on_settle-each keeps o n s);
      idle = rest.idle;
    }

-- However calls and ends of the work follow each other, each caller waits or was answered as often as
-- it called; callers wait only while the work runs; and the work was started once for each time that
-- its promise was dropped, and once more if there is a promise, so never twice at a time.
pub run-IsFair :
    (keeps : Outcome (Unit {0}) → Bool) (xs : List Step)
    → IsFair keeps xs new_shared (run keeps xs new_shared)
unfolding new_shared
run-IsFair keeps xs = run-IsFair_from keeps xs new_shared refl
