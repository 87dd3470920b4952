-- ===== src/Extension/Branch.antt =====
-- extensions/ipython.ts: which checkpoints a branch has.
use pi_ipython.Common.{Text, Option, none, some, List, [], ◌∷◌, ◌++◌, ◌≡◌, refl, ap, ◌∙◌}
use mathlib.Core.List.{reverse, reverse-append}
use pi_ipython.Extension.{Entry, stored, add_id, as_checkpoint_ref, collect_ids, checkpoint_ids}

add_id-append : (o : Option Text) (ids b : List Text) → add_id o (ids ++ b) ≡ add_id o ids ++ b
add_id-append none ids b = refl
add_id-append (some id) ids b = refl

collect_ids-append : (a b : List Entry) → collect_ids (a ++ b) ≡ collect_ids a ++ collect_ids b
unfolding collect_ids
collect_ids-append [] b = refl
collect_ids-append (entry ∷ a) b =
    rw (collect_ids-append a b)
      (add_id-append (as_checkpoint_ref (stored entry)) (collect_ids a) (collect_ids b))

-- The checkpoints of the newest entries come first.
pub checkpoint_ids-append :
    (branch new : List Entry)
    → checkpoint_ids (branch ++ new) ≡ checkpoint_ids new ++ checkpoint_ids branch
unfolding checkpoint_ids
checkpoint_ids-append branch new =
    ap collect_ids (reverse-append branch new) ∙ collect_ids-append (reverse new) (reverse branch)
