-- ===== src/Extension/Live/Shown.antt =====
-- extensions/ipython.ts: no output of a running cell stays unseen.
use pi_ipython.Common.{
  ℕ, Text, text, true, none, some, List, [], ◌∷◌, ◌++◌, ◌==◌, ◌≡◌, ◌∙◌, ◌⊎◌, refl, sym,
  append_assoc, arith, inl, inr, Bool-cases, Option-cases,
}
use pi_ipython.Output.Report.{partial_text}
use pi_ipython.Extension.Live.{
  Update, Live, new_live, is_pending, without, set_timer, emit_output, progress_text, on_progress,
  update_delay, on_live_output, Report, progressed, printed, timer_over, on_timer, on_report,
  on_reports,
}

-- The last update ends with what is shown of this output.
abbrev pub Shows : Text → List Update → Type 0
Shows output [] = output ≡ []
Shows output (u ∷ us) = (output ≡ []) ⊎ ((front : Text) × (u.text ≡ front ++ partial_text output))

-- The latest output is shown, or the timer is set, and shows it when it is over.
pub IsShown : Live → Type 0
IsShown l =
    Shows l.latest_output l.updates
    ⊎ ((id : ℕ) × (l.timer ≡ some id)
        × ((now : ℕ) → Shows l.latest_output (on_timer id now l).updates))

emit_output-Shows : (now : ℕ) (l : Live) → Shows l.latest_output (emit_output now l).updates
unfolding emit_output
emit_output-Shows now l = inr ([], refl)

pending-IsShown :
    (id : ℕ) (l : Live) → l.timer ≡ some id → is_pending id l.pending ≡ true → IsShown l
unfolding IsShown on_timer
pending-IsShown id l e p = inr (
  id,
  e,
  λ now. rw (p, on_timer) (emit_output-Shows now (record l { pending = without id l.pending })),
)

progress_text-ends :
    (message output : Text)
    → (output ≡ [])
      ⊎ ((front : Text) × (progress_text message output ≡ front ++ partial_text output))
unfolding progress_text
progress_text-ends message [] = inl refl
progress_text-ends message (c ∷ output) =
    inr
      (message ++ text "\n\n", sym (append_assoc message (text "\n\n") (partial_text (c ∷ output))))

-- The timer is pending whenever it is set; and the latest output is shown where it is not set.
pub record IsLive (l : Live) : Type 0 where
  pub set : (id : ℕ) → l.timer ≡ some id → is_pending id l.pending ≡ true
  pub unset : l.timer ≡ none → Shows l.latest_output l.updates

IsLive-IsShown : (l : Live) → IsLive l → IsShown l
IsLive-IsShown l v = elim (Option-cases l.timer) [
  | inl e ↦ unfold IsShown in inl (v.unset e)
  | inr (id, e) ↦ pending-IsShown id l e (v.set id e)
]

emit_output-IsLive : (now : ℕ) (l : Live) → IsLive (emit_output now l)
unfolding emit_output
emit_output-IsLive now l = record { set = λ id e. cc; unset = λ _. inr ([], refl) }

on_live_output-IsLive :
    (now : ℕ) (output : Text) (l : Live) → IsLive l → IsLive (on_live_output now output l)
unfolding on_live_output set_timer is_pending
on_live_output-IsLive now output l v = elim (Bool-cases (update_delay now l.last_update == 0)) [
  | inl z ↦ rw z (emit_output-IsLive now (record l { latest_output = output }))
  | inr z ↦ elim (Option-cases l.timer) [
    | inl e ↦ rw (z, e, on_live_output) (record { set = λ id f. ground arith; unset = λ f. cc })
    | inr (id, e) ↦
        rw (z, e, on_live_output)
          (record { set = λ i f. v.set i (e ∙ f); unset = λ f. ground arith })
  ]
]

on_report-IsLive : (r : Report) (l : Live) → IsLive l → IsLive (on_report r l)
unfolding on_report on_timer on_progress
on_report-IsLive (progressed now message) l v = record {
  set = λ id e. cc;
  unset = λ _. progress_text-ends message l.latest_output;
}
on_report-IsLive (printed now output) l v = on_live_output-IsLive now output l v
on_report-IsLive (timer_over id now) l v = elim (Bool-cases (is_pending id l.pending)) [
  | inl e ↦ rw e (emit_output-IsLive now (record l { pending = without id l.pending }))
  | inr e ↦ rw e v
]

-- No output of a running cell stays unseen: after any reports, the last update ends with the latest
-- output as it is shown, or the update timer is set, and an update that ends with it follows when the
-- timer is over.
pub on_reports-IsShown : (rs : List Report) → IsShown (on_reports rs new_live)
unfolding on_reports new_live
on_reports-IsShown rs =
    IsLive-IsShown _ (go rs new_live (record { set = λ id e. cc; unset = λ _. refl }))
  where
    go : (rs : List Report) (l : Live) → IsLive l → IsLive (on_reports rs l)
    go [] l v = v
    go (r ∷ rs) l v = go rs (on_report r l) (on_report-IsLive r l v)
