-- ===== src/Persistence/Settings.antt =====
-- core/persistence.ts: `persistenceEnabled`. A directory is the list of its names, the last first;
-- the root is the empty list, and `dirname` of the root is the root.
use pi_ipython.Common.{
  Text, text, text_eq, Bool, true, false, not, ◌||◌, Option, none, some, List, [], ◌∷◌, ◌++◌,
  if◌then◌else◌, All, ◌≡◌, ◌≢◌, ◌⊎◌, refl, ap, sym, ◌∙◌, inl, inr, Bool-cases,
}
use pi_ipython.Protocol.{JsonValue, boolean, object, get}

abbrev pub Directory : Type 0
Directory = List Text

-- A result, or the message of what is thrown.
pub data Outcome {ℓ} (A : Type ℓ) : Type ℓ where
  returns : A → Outcome A
  throws : Text → Outcome A

pub Outcome-split {ℓ} :
    {A : Type ℓ} → (o : Outcome A) → ((x : Text) × (o ≡ throws x)) ⊎ ((x : A) × (o ≡ returns x))
Outcome-split (throws x) = inl (x, refl)
Outcome-split (returns x) = inr (x, refl)

-- What reading `.pi/pi-ipython.json` in a directory gives: no such file, another error, or its text.
pub data Reading : Type 0 where
  missing : Reading
  unreadable : Text → Reading
  contents : Text → Reading

pub data Probe : Type 0 where
  present : Probe
  absent : Probe
  failed : Text → Probe

-- The file system, and the JSON parser: a value, or its error's message.
pub record Files : Type 0 where
  pub config : Directory → Reading
  pub git : Directory → Probe
  pub parse : Text → Outcome JsonValue
  pub shown : Directory → Text

-- `config instanceof Object && "persistence" in config && config.persistence === false`.
abbrev pub opts_out : JsonValue → Bool
opts_out (object fs) = elim (get (text "persistence") fs) [
  | none ↦ false
  | some v ↦ elim v [ boolean b ↦ not b | _ ↦ false ]
]
opts_out _ = false

module _ (files : Files) where
  unfoldable pub parsed : Directory → Outcome JsonValue → Outcome Bool
  parsed d (returns v) = returns (opts_out v)
  parsed d (throws e) =
      throws (text "Invalid IPython configuration " ++ (files.shown d ++ (text ": " ++ e)))

  -- Does the configuration in a directory turn checkpoints off?
  unfoldable pub refuses : Directory → Reading → Outcome Bool
  unfolding parsed
  refuses d missing = returns false
  refuses d (unreadable e) = throws e
  refuses d (contents t) = parsed d (files.parse t)

  -- The rest of a round, given that the configuration does not refuse: is this a Git root?
  next_round : Probe → Outcome Bool → Outcome Bool
  next_round present up = returns true
  next_round absent up = up
  next_round (failed e) up = throws e

  round : Outcome Bool → Probe → Outcome Bool → Outcome Bool
  unfolding next_round
  round (throws e) git up = throws e
  round (returns true) git up = returns false
  round (returns false) git up = next_round git up

  -- The loop over the directories from `d` up. The round at the root is the last.
  pub search_up : Directory → Outcome Bool
  unfolding refuses round
  search_up [] = round (refuses [] (files.config [])) (files.git []) (returns true)
  search_up (name ∷ up) =
      let above = search_up up in
      round (refuses (name ∷ up) (files.config (name ∷ up))) (files.git (name ∷ up)) above

  -- `persistenceEnabled`. `variable` is PI_IPYTHON_PERSISTENCE.
  pub persistence_enabled : Option Text → Directory → Outcome Bool
  persistence_enabled none cwd = search_up cwd
  persistence_enabled (some v) cwd =
      let found = search_up cwd in if text_eq v (text "0") then returns false else found

  -- The directories whose configuration counts: up to the first with `.git`, or the root.
  unfoldable pub in_scope : Directory → List Directory
  in_scope [] = [] ∷ []
  in_scope (name ∷ up) = elim (files.git (name ∷ up)) [
    | present ↦ (name ∷ up) ∷ []
    | absent ↦ (name ∷ up) ∷ in_scope up
    | failed e ↦ (name ∷ up) ∷ []
  ]

  -- A directory's files can be read: its configuration is absent or parses, and `.git` is there or not.
  abbrev pub IsReadable : Directory → Type 0
  IsReadable d =
      ((e : Text) → files.git d ≢ failed e) × ((e : Text) → refuses d (files.config d) ≢ throws e)

  abbrev refuses_at : Directory → Bool
  refuses_at d = elim (refuses d (files.config d)) [ returns b ↦ b | throws e ↦ false ]

  pub any_refuses : List Directory → Bool
  any_refuses [] = false
  any_refuses (d ∷ ds) = refuses_at d || any_refuses ds

  abbrev value_of : Outcome Bool → Bool
  value_of (returns b) = b
  value_of (throws e) = false

  abbrev if_absent : Probe → Bool → Bool
  if_absent present b = false
  if_absent absent b = b
  if_absent (failed e) b = false

  if_absent-false : (g : Probe) → if_absent g false ≡ false
  if_absent-false present = refl
  if_absent-false absent = refl
  if_absent-false (failed e) = refl

  round_value :
      (o : Outcome Bool) (g : Probe) (up : Outcome Bool) (b : Bool)
      → ((e : Text) → g ≢ failed e)
      → ((e : Text) → o ≢ throws e)
      → (g ≡ absent → up ≡ returns (not b))
      → round o g up ≡ returns (not (value_of o || if_absent g b))
  unfolding round next_round
  round_value (throws e) g up b hg ho hu = absurd (ho e refl)
  round_value (returns true) g up b hg ho hu = refl
  round_value (returns false) present up b hg ho hu = refl
  round_value (returns false) absent up b hg ho hu = hu refl
  round_value (returns false) (failed e) up b hg ho hu = absurd (hg e refl)

  scope_values :
      (name : Text) (up : Directory) (g : Probe)
      → files.git (name ∷ up) ≡ g
      → All IsReadable (in_scope (name ∷ up))
      → IsReadable (name ∷ up)
        × (g ≡ absent → All IsReadable (in_scope up))
        × (any_refuses (in_scope (name ∷ up)) ≡ (
            value_of (refuses (name ∷ up) (files.config (name ∷ up)))
            || if_absent g (any_refuses (in_scope up))))
  unfolding in_scope any_refuses
  scope_values name up present e h =
      let k = rw (e, in_scope) at h in (k.0, (λ a. cc), rw (e, in_scope))
  scope_values name up absent e h =
      let k = rw (e, in_scope) at h in (k.0, (λ a. k.1), rw (e, in_scope))
  scope_values name up (failed x) e h =
      let k = rw (e, in_scope) at h in (k.0, (λ a. cc), rw (e, in_scope))

  search_up-any_refuses :
      (d : Directory)
      → All IsReadable (in_scope d)
      → search_up d ≡ returns (not (any_refuses (in_scope d)))
  unfolding search_up in_scope any_refuses
  search_up-any_refuses [] h =
      round_value _ (files.git []) (returns true) false h.0.0 h.0.1 (λ _. refl)
      ∙ ap (λ b. returns (not (value_of (refuses [] (files.config [])) || b)))
          (if_absent-false (files.git []))
  search_up-any_refuses (name ∷ up) h =
      let (here, above, same) = scope_values name up (files.git (name ∷ up)) refl h in
      round_value _ (files.git (name ∷ up)) (search_up up) (any_refuses (in_scope up)) here.0 here.1
        (λ a. search_up-any_refuses up (above a))
      ∙ ap (λ b. returns (not b)) (sym same)

  -- Is PI_IPYTHON_PERSISTENCE set to 0?
  abbrev pub is_off : Option Text → Bool
  is_off none = false
  is_off (some v) = text_eq v (text "0")

  -- Where the files can be read, checkpoints are off exactly if PI_IPYTHON_PERSISTENCE is 0 or a
  -- configuration in scope turns them off: one from the working directory up to the first directory
  -- with `.git`, or to the root.
  pub persistence_enabled-any_refuses :
      (v : Option Text) (d : Directory)
      → All IsReadable (in_scope d)
      → persistence_enabled v d ≡ returns (not (is_off v || any_refuses (in_scope d)))
  unfolding persistence_enabled
  persistence_enabled-any_refuses none d h = search_up-any_refuses d h
  persistence_enabled-any_refuses (some v) d h = elim (Bool-cases (text_eq v (text "0"))) [
    | inl e ↦ rw e
    | inr e ↦ rw e (search_up-any_refuses d h)
  ]
