-- ===== src/Durable/Pages.antt =====
-- durable/index.ts: the pages of a conversation's entries, and the pieces of a running cell's output.
use pi_ipython.Common.{
  ℕ, zero, suc, ◌≤◌, Text, Option, none, some, List, [], ◌∷◌, ◌++◌, append-nil, concat,
  strip_prefix-append, ◌≡◌, refl, sym, ap, arith, length,
}
use pi_ipython.Durable.{
  Entry, checkpoint, another, Page, ids_of, checkpoint_ids, live_piece, live_pieces,
}

-- From this cursor on, the store gives these pages and no more.
pub data Paged {ℓ} {C : Type ℓ} (scan : Option C → Page C)
    : Option C → List (List Entry) → Type ℓ where
  last :
      (cursor : Option C) → (scan cursor).next ≡ none → Paged scan cursor ((scan cursor).items ∷ [])
  more :
      (cursor : Option C) (next : C) (pages : List (List Entry))
      → (scan cursor).next ≡ some next
      → Paged scan (some next) pages
      → Paged scan cursor ((scan cursor).items ∷ pages)

ids_of-append : (a b : List Entry) → ids_of (a ++ b) ≡ ids_of a ++ ids_of b
unfolding ids_of
ids_of-append [] b = refl
ids_of-append (checkpoint id ∷ a) b = ap (◌∷◌ id) (ids_of-append a b)
ids_of-append (another ∷ a) b = ids_of-append a b

-- However the store cuts the entries into pages, with fuel for each page the loop ends and gives the
-- checkpoints of all of them, in order.
pub checkpoint_ids-pages {ℓ} :
    {C : Type ℓ} (scan : Option C → Page C) (fuel : ℕ) (cursor : Option C)
    (pages : List (List Entry))
    → Paged scan cursor pages
    → length pages ≤ fuel
    → checkpoint_ids scan fuel cursor ≡ some (ids_of (concat pages))
unfolding checkpoint_ids
checkpoint_ids-pages scan zero cursor pages (last c e) le = absurd (ground arith)
checkpoint_ids-pages scan zero cursor pages (more c n p e rest) le = absurd (ground arith)
checkpoint_ids-pages scan (suc fuel) cursor pages (last c e) le =
    rw (e, checkpoint_ids) (ap (λ es. some (ids_of es)) (sym (append-nil (scan cursor).items)))
checkpoint_ids-pages scan (suc fuel) cursor pages (more c n p e rest) le =
    let found = checkpoint_ids-pages scan fuel (some n) p rest (omega arith) in
    rw (e, checkpoint_ids)
      (rw (found, checkpoint_ids) (ap some (sym (ids_of-append (scan cursor).items (concat p)))))

-- An output as it grows, from what was seen of it on.
pub grown : Text → List Text → List Text
grown seen [] = []
grown seen (piece ∷ pieces) = (seen ++ piece) ∷ grown (seen ++ piece) pieces

-- While an output only grows, each part is sent to viewers once.
pub live_pieces-grown :
    (seen : Text) (pieces : List Text) → live_pieces seen (grown seen pieces) ≡ pieces
unfolding live_pieces live_piece grown
live_pieces-grown seen [] = refl
live_pieces-grown seen (piece ∷ pieces) =
    rw (strip_prefix-append seen piece, live_piece)
      (ap (◌∷◌ piece) (live_pieces-grown (seen ++ piece) pieces))
