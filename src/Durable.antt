-- ===== src/Durable.antt =====
-- durable/index.ts: the checkpoints that a conversation sees, a cell's text and live output, and the
-- end of its kernels.
pub mod Pages
pub mod Closing
pub mod Runtimes
pub mod Cells
mod Tests
use pi_ipython.Common.{
  ℕ, zero, suc, Text, text, text_eq, Bool, true, false, Option, none, some, List, [], ◌∷◌, ◌++◌,
  if◌then◌else◌, strip_prefix, is_some,
}
use pi_ipython.Protocol.{BridgeError, describe_error}
use pi_ipython.Output.Report.{or_text}
use pi_ipython.Persistence.Settings.{Outcome, returns, throws}

-- An entry of a conversation: the ID of a checkpoint, or another entry (`CheckpointEntry.is`).
pub data Entry : Type 0 where
  checkpoint : Text → Entry
  another : Entry

-- A page of `scanEntries`; `next` is the cursor of the one after it.
pub record Page {ℓ} (C : Type ℓ) : Type ℓ where
  pub items : List Entry
  pub next : Option C

unfoldable pub ids_of : List Entry → List Text
ids_of [] = []
ids_of (checkpoint id ∷ entries) = id ∷ ids_of entries
ids_of (another ∷ entries) = ids_of entries

-- `checkpointIds`: its loop over the pages, on fuel. `scan` is `tx.scanEntries` on the conversation,
-- newest first, 256 entries a page.
unfoldable pub checkpoint_ids {ℓ} :
    {C : Type ℓ} → (Option C → Page C) → ℕ → Option C → Option (List Text)
checkpoint_ids scan zero cursor = none
checkpoint_ids scan (suc fuel) cursor =
    let page = scan cursor in
    elim page.next [
      | none ↦ some (ids_of page.items)
      | some next ↦ elim (checkpoint_ids scan fuel (some next)) [
        | none ↦ none
        | some ids ↦ some (ids_of page.items ++ ids)
      ]
    ]

-- What a running cell sends to viewers, given what it has sent.
unfoldable pub live_piece : Text → Text → Text
live_piece streamed output = elim (strip_prefix streamed output) [
  | none ↦ output
  | some rest ↦ rest
]

unfoldable pub live_pieces : Text → List Text → List Text
live_pieces streamed [] = []
live_pieces streamed (output ∷ outputs) = live_piece streamed output ∷ live_pieces output outputs

-- `data.output || (data.status === "error" && describeError(…)) || "[no output]"`.
unfoldable pub cell_text : Text → Bool → Option BridgeError → Text
cell_text output failed error =
    or_text output (or_text (if failed then describe_error error else []) (text "[no output]"))

-- The runtimes by conversation, and `closing` with the reasons that it rejects with.
pub record Host {ℓ} (R : Type ℓ) : Type ℓ where
  pub runtimes : List (Text × R)
  pub closing : Option (List Text)

unfoldable pub lookup {ℓ} : {R : Type ℓ} → Text → List (Text × R) → Option R
lookup key [] = none
lookup key ((k, r) ∷ rest) = let found = lookup key rest in if text_eq k key then some r else found

abbrev pub closing_down : Text
closing_down = text "IPython runtime is shutting down"

-- The part of `execute` that finds or makes the conversation's runtime.
unfoldable pub runtime_of {ℓ} : {R : Type ℓ} → Text → R → Host R → Outcome R × Host R
runtime_of {R} key created h =
    let found : Outcome R × Host R = elim (lookup key h.runtimes) [
      | some r ↦ (returns r, h)
      | none ↦ (returns created, record h { runtimes = h.runtimes ++ (key, created) ∷ [] })
    ] in
    if is_some h.closing then (throws closing_down, h) else found

-- `Promise.allSettled` of every `runtime.close()`: each is called; the reasons of those that reject, in
-- order. The source calls all of them before it waits for one; here one follows the other.
unfoldable pub close_all {ℓ κ} :
    {R : Type ℓ} {S : Type κ}
    → (R → S → Outcome (Unit {0}) × S)
    → List (Text × R)
    → S
    → List Text × S
close_all stop [] s = ([], s)
close_all stop ((key, r) ∷ rest) s =
    let (o, s1) = stop r s in
    let (errors, s2) = close_all stop rest s1 in
    elim o [ returns _ ↦ (errors, s2) | throws e ↦ (e ∷ errors, s2) ]

-- `close`: it rejects if there are errors. A second call gives the first one's promise.
unfoldable pub close {ℓ κ} :
    {R : Type ℓ} {S : Type κ}
    → (R → S → Outcome (Unit {0}) × S)
    → Host R
    → S
    → List Text × (Host R × S)
close stop h s = elim h.closing [
  | some errors ↦ (errors, (h, s))
  | none ↦
      let (errors, s1) = close_all stop h.runtimes s in
      (errors, (record { runtimes = []; closing = some errors }, s1))
]
