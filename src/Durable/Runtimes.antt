-- ===== src/Durable/Runtimes.antt =====
-- durable/index.ts: the runtimes of the conversations are a map, and each conversation has one.
use pi_ipython.Common.{
  Text, text_eq, text_eq_iff, Bool, true, false, Option, none, some, List, [], ◌∷◌, ◌++◌, is_some,
  if◌then◌else◌, ◌≡◌, refl, sym, ap, ◌∙◌, Bool-cases, Option-cases, inl, inr,
}
use pi_ipython.Persistence.Settings.{Outcome, returns, throws}
use pi_ipython.Durable.{Host, lookup, closing_down, runtime_of, close}

-- What is asked of the runtimes: the one of a conversation, given what `createRuntime` would make, and
-- their end.
pub data Request {ℓ} (R : Type ℓ) : Type ℓ where
  asks : Text → R → Request R
  closes : Request R

-- The abstract view: which conversation has which runtime, and whether they are at their end.
pub record Runtimes {ℓ} (R : Type ℓ) : Type ℓ where
  pub runtime : Text → Option R
  pub closed : Bool

abbrev pub put {ℓ} : {R : Type ℓ} → Text → R → (Text → Option R) → Text → Option R
put key r old k = if text_eq key k then some r else old k

pub ask {ℓ} : {R : Type ℓ} → Text → R → Runtimes R → Outcome R × Runtimes R
ask {R} key created v =
    let found : Outcome R × Runtimes R = elim (v.runtime key) [
      | some r ↦ (returns r, v)
      | none ↦ (returns created, record v { runtime = put key created v.runtime })
    ] in
    if v.closed then (throws closing_down, v) else found

pub nothing {ℓ} : {R : Type ℓ} → Text → Option R
nothing key = none

-- The answers, in order.
pub answers_of_view {ℓ} : {R : Type ℓ} → List (Request R) → Runtimes R → List (Outcome R)
answers_of_view [] v = []
answers_of_view (asks key created ∷ rest) v =
    (ask key created v).0 ∷ answers_of_view rest (ask key created v).1
answers_of_view (closes ∷ rest) v =
    answers_of_view rest (if v.closed then v else record { runtime = nothing; closed = true })

module _ {ℓ κ} {R : Type ℓ} {S : Type κ} (stop : R → S → Outcome (Unit {0}) × S) where
  unfoldable pub answers : List (Request R) → Host R → S → List (Outcome R)
  answers [] h s = []
  answers (asks key created ∷ rest) h s =
      (runtime_of key created h).0 ∷ answers rest (runtime_of key created h).1 s
  answers (closes ∷ rest) h s = answers rest (close stop h s).1.0 (close stop h s).1.1

pub record IsView {ℓ} {R : Type ℓ} (h : Host R) (v : Runtimes R) : Type ℓ where
  pub same : (key : Text) → v.runtime key ≡ lookup key h.runtimes
  pub ended : v.closed ≡ is_some h.closing

other_key : (k1 key k : Text) → text_eq k1 key ≡ false → text_eq k1 k ≡ true → text_eq key k ≡ false
other_key k1 key k h e = elim (Bool-cases (text_eq key k)) [
  | inr f ↦ f
  | inl f ↦
      let same = (text_eq_iff k1 key).1 ((text_eq_iff k1 k).0 e ∙ sym ((text_eq_iff key k).0 f)) in
      cc
]

pub lookup-append {ℓ} :
    {R : Type ℓ} (key k : Text) (r : R) (rs : List (Text × R))
    → lookup key rs ≡ none
    → lookup k (rs ++ (key, r) ∷ []) ≡ put key r (λ i. lookup i rs) k
unfolding lookup
lookup-append key k r [] h = refl
lookup-append key k r ((k1, r1) ∷ rs) h = elim (Bool-cases (text_eq k1 key)) [
  | inl e ↦ cc (rw (e, lookup) at h)
  | inr e ↦
      let rec = lookup-append key k r rs (rw (e, lookup) at h) in
      elim (Bool-cases (text_eq k1 k)) [
        | inl f ↦ rw (f, other_key k1 key k e f) refl
        | inr f ↦ rw f rec
      ]
]

put_same {ℓ} :
    {R : Type ℓ} (key : Text) (r : R) (f g : Text → Option R)
    → ((k : Text) → f k ≡ g k)
    → (k : Text) → put key r f k ≡ put key r g k
put_same key r f g h k = elim (Bool-cases (text_eq key k)) [
  | inl e ↦ rw e refl
  | inr e ↦ rw e (h k)
]

runtime_of-IsView {ℓ} :
    {R : Type ℓ} (key : Text) (created : R) (h : Host R) (v : Runtimes R)
    → IsView h v
    → ((runtime_of key created h).0 ≡ (ask key created v).0)
      × IsView (runtime_of key created h).1 (ask key created v).1
unfolding runtime_of ask
runtime_of-IsView key created h v i = elim (Bool-cases (is_some h.closing)) [
  | inl e ↦ rw (e, i.ended ∙ e) (refl, record { same = i.same; ended = sym e })
  | inr e ↦ elim (Option-cases (lookup key h.runtimes)) [
    | inl f ↦
        rw (e, i.ended ∙ e, f, i.same key ∙ f)
          (
            refl,
            record {
              same = λ k.
                  put_same key created (λ j. v.runtime j) (λ j. lookup j h.runtimes) i.same k
                  ∙ sym (lookup-append key k created h.runtimes f);
              ended = i.ended;
            },
          )
    | inr (r, f) ↦
        rw (e, i.ended ∙ e, f, i.same key ∙ f) (refl, record { same = i.same; ended = i.ended })
  ]
]

close-IsView {ℓ κ} :
    {R : Type ℓ} {S : Type κ} (stop : R → S → Outcome (Unit {0}) × S) (h : Host R) (s : S)
    (v : Runtimes R)
    → IsView h v
    → IsView
        (close stop h s).1.0
        (if v.closed then v else record { runtime = nothing; closed = true })
unfolding close nothing lookup
close-IsView stop h s v i = elim (Option-cases h.closing) [
  | inl e ↦ rw (e, i.ended ∙ ap is_some e) (record { same = λ k. refl; ended = refl })
  | inr (errors, e) ↦ rw (e, i.ended ∙ ap is_some e) (record { same = i.same; ended = refl })
]

-- The runtimes of an adapter are a map from conversations to runtimes, until they are closed: however
-- they are kept, each request for a runtime is answered as by the map, which gives a conversation the
-- runtime that it was given first, and refuses every request once it is closed.
pub answers_refines {ℓ κ} :
    {R : Type ℓ} {S : Type κ} (stop : R → S → Outcome (Unit {0}) × S) (requests : List (Request R))
    (s : S)
    → answers stop requests (record { runtimes = []; closing = none }) s
      ≡ answers_of_view requests (record { runtime = nothing; closed = false })
unfolding answers answers_of_view nothing lookup
answers_refines {R} {S} stop requests s =
    go requests _ s _ (record { same = λ k. refl; ended = refl })
  where
    go :
        (requests : List (Request R)) (h : Host R) (s : S) (v : Runtimes R)
        → IsView h v
        → answers stop requests h s ≡ answers_of_view requests v
    go [] h s v i = refl
    go (asks key created ∷ rest) h s v i =
        let (same, j) = runtime_of-IsView key created h v i in
        let others = go rest _ s _ j in
        ap (λ t. t ∷ answers stop rest (runtime_of key created h).1 s) same
        ∙ ap (λ t. (ask key created v).0 ∷ t) others
    go (closes ∷ rest) h s v i = go rest _ _ _ (close-IsView stop h s v i)
