-- ===== src/Extension/Session/Balance.antt =====
-- extensions/ipython.ts: each action of a session accounts for every notice.
use pi_ipython.Common.{
  ℕ, ◌+◌, Text, List, [], ◌∷◌, ◌++◌, if◌then◌else◌, ◌≡◌, append-nil, refl, sym, ap, subst, true,
  false, arith, Bool-cases, Option-cases, inl, inr,
}
use pi_ipython.Persistence.Settings.{Outcome, Outcome-split, returns, throws}
use pi_ipython.Cell.{reset_notice, Execution}
use pi_ipython.Extension.{Entry, checkpoint_ids, get_notices, on_kernel_lost, on_tool_result}
use pi_ipython.Extension.Notices.{
  occurrences, held, brought, occurrences-append, held-set, on_tool_result-keeps,
}
use pi_ipython.Extension.Session.{
  Attempt, done, lost, failed, Services, Session, Answer, get_runtime,
}
use pi_ipython.Extension.Session.Cells.{execute_cell}
use pi_ipython.Extension.Session.Console.{
  Notification, open_console, sync_console, toggle_on, warning, need_console, toggle_cells,
  session_shutdown, on_sigterm,
}
use pi_ipython.Extension.Session.Answers.{
  notices_for, Attempt-split, IsKept, IsRun, IsAccounted, get_runtime-IsKept,
  execute_cell-IsAccounted,
}
use pi_ipython.Extension.Session.Held.Ends.{listens}
use pi_ipython.Extension.Session.Shutdown.{
  Action, executes, toggles, results, ends, terminates, deliver_sigterm, act,
}

occurrences-notices_for :
    (n : Text) (execution : Execution) (a b : List Text)
    → occurrences n (notices_for execution (a ++ b))
      ≡ occurrences n a + occurrences n (notices_for execution b)
unfolding occurrences
occurrences-notices_for n execution a b = elim (Bool-cases execution.kernel_reset) [
  | inl e ↦ rw e (omega (arith, occurrences-append n a b))
  | inr e ↦ rw e (occurrences-append n a b)
]

abbrev pub notices_in : Attempt Answer → List Text
notices_in (done a) = a.structured.notices
notices_in (lost e) = []
notices_in (failed e) = []

module _ {ℓ κ} {R : Type ℓ} {S : Type κ} (api : Services R S) where
  -- What an action tells the model.
  pub told_by : Action → Session R S → List Text
  told_by (executes call_id code branch) s = notices_in (execute_cell api call_id code branch s).end
  told_by (toggles branch) s = []
  told_by (results e) s = (on_tool_result e s.forwarded).shown
  told_by ends s = []
  told_by terminates s = []

  -- How often an action drops a notice: the end of a session drops what waits for other calls.
  pub drops : Text → Action → Session R S → ℕ
  drops n (executes call_id code branch) s = 0
  drops n (toggles branch) s = 0
  drops n (results e) s = 0
  drops n ends s = held n s.forwarded
  drops n terminates s = 0

  pub record IsJust (news expected : List Text) : Type (ℓ ⊔ κ) where
    pub just : news ≡ expected

  -- The notices that come up in a cell: those of `sync`, after a reset notice if the kernel was
  -- replaced, when it has a result; and a reset notice when it lost the kernel.
  pub IsCellNews :
      Text → Text → List Entry → Session R S → Attempt Answer → List Text → Type (ℓ ⊔ κ)
  IsCellNews call_id code branch s (done a) news =
      (notices : List Text) × (execution : Execution) × IsRun api call_id code branch s notices
        execution
      × (news ≡ notices_for execution notices)
  IsCellNews call_id code branch s (lost e) news = IsJust news (reset_notice ∷ [])
  IsCellNews call_id code branch s (failed e) news = IsJust news []

  -- Those that come up when the console is toggled: what `sync` gave, and none only if there is no
  -- console, no runtime, or `sync` threw.
  pub data IsConsoleNews (branch : List Entry) (s : Session R S) (news : List Text)
      : Type (ℓ ⊔ κ) where
    no_console : api.interactive ≡ false → news ≡ [] → IsConsoleNews branch s news
    no_runtime :
        (e : Text) → (get_runtime api s).0 ≡ throws e → news ≡ [] → IsConsoleNews branch s news
    sync_lost :
        (r : R) (e : Text)
        → (get_runtime api s).0 ≡ returns r
        → (api.sync r (checkpoint_ids branch) (get_runtime api s).1.services).1.0 ≡ lost e
        → news ≡ []
        → IsConsoleNews branch s news
    sync_failed :
        (r : R) (e : Text)
        → (get_runtime api s).0 ≡ returns r
        → (api.sync r (checkpoint_ids branch) (get_runtime api s).1.services).1.0 ≡ failed e
        → news ≡ []
        → IsConsoleNews branch s news
    synced :
        (r : R)
        → api.interactive ≡ true
        → (get_runtime api s).0 ≡ returns r
        → (api.sync r (checkpoint_ids branch) (get_runtime api s).1.services).1.0 ≡ done news
        → IsConsoleNews branch s news

  pub IsNews : Action → Session R S → List Text → Type (ℓ ⊔ κ)
  IsNews (executes call_id code branch) s news =
      IsCellNews call_id code branch s (execute_cell api call_id code branch s).end news
  IsNews (toggles branch) s news = IsConsoleNews branch s news
  IsNews (results e) s news = IsJust news (brought e)
  IsNews ends s news = IsJust news []
  IsNews terminates s news = IsJust news []

  -- Nothing waits for the call of a cell before it is executed.
  unfoldable pub IsFirst : Action → Session R S → Type 0
  IsFirst (executes call_id code branch) s = get_notices call_id s.forwarded ≡ []
  IsFirst (toggles branch) s = Unit
  IsFirst (results e) s = Unit
  IsFirst ends s = Unit
  IsFirst terminates s = Unit

  abbrev pub waiting : Text → Session R S → ℕ
  waiting n s = held n s.forwarded + occurrences n s.undelivered

  abbrev pub IsBalance : Text → Session R S → Session R S → List Text → ℕ → List Text → Type 0
  IsBalance n s after told dropped news =
      waiting n after + occurrences n told + dropped ≡ waiting n s + occurrences n news

  execute_cell-IsBalanced :
      (n call_id code : Text) (branch : List Entry) (s : Session R S) (end : Attempt Answer)
      (after : Session R S)
      → get_notices call_id s.forwarded ≡ []
      → IsAccounted api call_id code branch s end after
      → (news : List Text) × IsCellNews call_id code branch s end news
        × IsBalance n s after (notices_in end) 0 news
  unfolding IsAccounted IsCellNews occurrences on_kernel_lost
  execute_cell-IsBalanced n call_id code branch s (done a) after none_yet
        (notices, execution, ran, answer, u, f) =
      (
        notices_for execution notices,
        (notices, execution, ran, refl),
        rw (u, f, answer.noticed)
            (omega (arith, occurrences-notices_for n execution s.undelivered notices)),
      )
  execute_cell-IsBalanced n call_id code branch s (lost e) after none_yet v = (
    reset_notice ∷ [],
    record { just = refl },
    rw (v.undelivered, v.forwarded)
        (omega
          (arith, held-set n call_id (reset_notice ∷ []) s.forwarded, ap (occurrences n) none_yet)),
  )
  execute_cell-IsBalanced n call_id code branch s (failed e) after none_yet v =
      ([], record { just = refl }, rw (v.undelivered, v.forwarded) (omega arith))

  open_console-IsKept :
      (r : R) (seen : List Notification) (s : Session R S)
      → IsKept api s (open_console api r seen s).1
  unfolding open_console
  open_console-IsKept r seen s = elim (Outcome-split (api.connect r s.services).1.0) [
    | inl (m, e) ↦ rw (e, open_console) (record { undelivered = refl; forwarded = refl })
    | inr (file, e) ↦ elim (Outcome-split (api.toggle file (api.connect r s.services).1.1).0) [
      | inl (m, f) ↦ rw (e, f, open_console) (record { undelivered = refl; forwarded = refl })
      | inr (u, f) ↦ rw (e, f, open_console) (record { undelivered = refl; forwarded = refl })
    ]
  ]

  -- The notices of a `sync` for the console.
  abbrev pub synced_news : Attempt (List Text) → List Text
  synced_news (done notices) = notices
  synced_news (lost e) = []
  synced_news (failed e) = []

  sync_console-waits :
      (branch : List Entry) (r : R) (s : Session R S)
      → ((sync_console api branch r s).1.undelivered
          ≡ s.undelivered ++ synced_news (api.sync r (checkpoint_ids branch) s.services).1.0)
        × ((sync_console api branch r s).1.forwarded ≡ s.forwarded)
  unfolding sync_console
  sync_console-waits branch r s =
      elim (Attempt-split (api.sync r (checkpoint_ids branch) s.services).1.0) [
        | inl (notices, e) ↦
            let kept = open_console-IsKept r _ _ in
            rw (e, sync_console) (kept.undelivered, kept.forwarded)
        | inr (inl (m, e)) ↦ rw (e, sync_console) (sym (append-nil s.undelivered), refl)
        | inr (inr (m, e)) ↦ rw (e, sync_console) (sym (append-nil s.undelivered), refl)
      ]

  synced_news-IsConsoleNews :
      (branch : List Entry) (s : Session R S) (r : R)
      → api.interactive ≡ true
      → (get_runtime api s).0 ≡ returns r
      → IsConsoleNews branch s
          (synced_news (api.sync r (checkpoint_ids branch) (get_runtime api s).1.services).1.0)
  synced_news-IsConsoleNews branch s r i e =
      elim (Attempt-split (api.sync r (checkpoint_ids branch) (get_runtime api s).1.services).1.0) [
        | inl (notices, f) ↦ rw f (synced r i e f)
        | inr (inl (m, f)) ↦ rw f (sync_lost r m e f refl)
        | inr (inr (m, f)) ↦ rw f (sync_failed r m e f refl)
      ]

  toggle_on-IsBalanced :
      (n : Text) (branch : List Entry) (s : Session R S) (o : Outcome R)
      → api.interactive ≡ true
      → (get_runtime api s).0 ≡ o
      → (news : List Text) × IsConsoleNews branch s news
        × IsBalance n s (toggle_on api branch o (get_runtime api s).1).1 [] 0 news
  unfolding toggle_on occurrences
  toggle_on-IsBalanced n branch s (throws m) i e =
      let kept = get_runtime-IsKept api s in
      ([], no_runtime m e refl, rw (kept.undelivered, kept.forwarded) (omega arith))
  toggle_on-IsBalanced n branch s (returns r) i e =
      let kept = get_runtime-IsKept api s in
      let s1 = (get_runtime api s).1 in
      let news = synced_news (api.sync r (checkpoint_ids branch) s1.services).1.0 in
      let (u, f) = sync_console-waits branch r s1 in
      (
        news,
        synced_news-IsConsoleNews branch s r i e,
        rw (u, f, kept.undelivered, kept.forwarded)
            (omega (arith, occurrences-append n s.undelivered news)),
      )

  toggle_cells-IsBalanced :
      (n : Text) (branch : List Entry) (s : Session R S)
      → (news : List Text) × IsConsoleNews branch s news
        × IsBalance n s (toggle_cells api branch s).1 [] 0 news
  unfolding toggle_cells occurrences
  toggle_cells-IsBalanced n branch s = elim (Bool-cases api.interactive) [
    | inr i ↦ ([], no_console i refl, rw i (omega arith))
    | inl i ↦
        let (news, is_news, balance) =
          toggle_on-IsBalanced n branch s (get_runtime api s).0 i refl in
        (
          news,
          is_news,
          subst
              (λ b.
                IsBalance n s
                  (if b
                    then toggle_on api branch (get_runtime api s).0 (get_runtime api s).1
                    else (warning need_console ∷ [], s)).1
                  [] 0 news)
              (sym i) balance,
        )
  ]

  session_shutdown-forgets :
      (s : Session R S)
      → ((session_shutdown api s).1.undelivered ≡ s.undelivered)
        × ((session_shutdown api s).1.forwarded ≡ [])
  unfolding session_shutdown
  session_shutdown-forgets s = elim (Option-cases s.current) [
    | inl e ↦ rw (e, session_shutdown) (refl, refl)
    | inr (c, e) ↦ rw (e, session_shutdown) (refl, refl)
  ]

  deliver_sigterm-IsKept : (s : Session R S) → IsKept api s (deliver_sigterm api s)
  unfolding deliver_sigterm on_sigterm
  deliver_sigterm-IsKept s = elim (Option-cases s.current) [
    | inl e ↦ rw e (record { undelivered = refl; forwarded = refl })
    | inr (r, e) ↦ elim (Bool-cases (listens r.sigterm s.listeners)) [
      | inl h ↦ rw (e, h) (record { undelivered = refl; forwarded = refl })
      | inr h ↦ rw (e, h) (record { undelivered = refl; forwarded = refl })
    ]
  ]

  -- Each action of a session accounts for every notice: what waits for the model afterwards, what the
  -- action told it and what it dropped is what waited before, with what came up. Only the end of a
  -- session drops notices, those that wait for calls. What comes up is what `sync` gives to a cell that
  -- has a result, after a reset notice if the kernel was replaced; a reset notice when a cell loses the
  -- kernel; what `sync` gives for the console; and the notices of cells that other tools ran. It is
  -- assumed that nothing waits for the call of a cell before the cell is executed.
  pub act-IsBalanced :
      (n : Text) (a : Action) (s : Session R S)
      → IsFirst a s
      → (news : List Text) × IsNews a s news
        × (waiting n (act api a s) + occurrences n (told_by a s) + drops n a s
            ≡ waiting n s + occurrences n news)
  unfolding act told_by drops IsNews IsFirst
  act-IsBalanced n (executes call_id code branch) s none_yet =
      execute_cell-IsBalanced n call_id code branch s _ _ none_yet
        (execute_cell-IsAccounted api call_id code branch s)
  act-IsBalanced n (toggles branch) s none_yet = toggle_cells-IsBalanced n branch s
  act-IsBalanced n (results e) s none_yet =
      (brought e, record { just = refl }, omega (arith, on_tool_result-keeps n e s.forwarded))
  act-IsBalanced n ends s none_yet =
      let (u, f) = session_shutdown-forgets s in
      ([], record { just = refl }, rw (u, f) (unfold held occurrences in omega arith))
  act-IsBalanced n terminates s none_yet =
      let kept = deliver_sigterm-IsKept s in
      (
        [],
        record { just = refl },
        rw (kept.undelivered, kept.forwarded) (unfold occurrences in omega arith),
      )
