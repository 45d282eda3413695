-- ===== src/Manager/Keep.antt =====
-- A run stays consistent in every step (services/run_manager.py).
use dockkeep.Prelude.{
  ◌≡◌, ◌≢◌, refl, sym, ap, ◌∙◌, subst, Bool, true, false, inl, inr, none, some, if◌then◌else◌,
  Bool-cases,
}
use dockkeep.Manager.{
  RunOrigin, is_active, Phase, waiting, starting, operating, closing, ended, Finisher, no_task,
  pending, at_hook, over, Run, drop_completed_record, complete, mark_not_cancellable, cancel,
  cancel_at_shutdown,
}
use dockkeep.Manager.Steps.{
  Event, task_begins, task_done, finisher_begins, finisher_hook_ends, finisher_done,
  started_hook_ends, terminal_hook_ends, operation_ends, operation_marks, operation_crashes,
  cancel_asked, shutdown, Hooks, set_finisher, ending_after, begin_finisher, on_finish_task_done,
  at_phase, at_finisher, of_finisher, step,
}
use dockkeep.Manager.Life.{
  IsConsistent, Same, Same-if, Same-refl, IsConsistent-Same, complete-Same,
  drop_completed_record-Same, Fits, Then, Finishing, told_of, Lost, finishing, lost-Fits,
  finish-Noted, ended-Fits, begin-IsConsistent, end_operation-IsConsistent,
  on_task_done-IsConsistent,
}

pub mark_not_cancellable-Same : (h : Hooks) (r : Run) → Same h r (mark_not_cancellable r)
unfolding mark_not_cancellable
mark_not_cancellable-Same h r =
    Same-if h _ r _ _
      (record {
        status = refl;
        phase = refl;
        finisher = refl;
        in_tasks = refl;
        in_finish_tasks = refl;
        notified = refl;
      })
      (Same-refl h r)

pub cancel-Same : (h : Hooks) (r : Run) → Same h r (cancel r)
unfolding cancel
cancel-Same h r =
    Same-if h _ r _ _
      (record {
        status = refl;
        phase = refl;
        finisher = refl;
        in_tasks = refl;
        in_finish_tasks = refl;
        notified = refl;
      })
      (Same-refl h r)

pub cancel_at_shutdown-Same : (h : Hooks) (r : Run) → Same h r (cancel_at_shutdown r)
unfolding cancel_at_shutdown
cancel_at_shutdown-Same h r =
    Same-if h _ r _ _
      (record {
        status = refl;
        phase = refl;
        finisher = refl;
        in_tasks = refl;
        in_finish_tasks = refl;
        notified = refl;
      })
      (Same-refl h r)

module _ (h : Hooks) (origin : RunOrigin) where
  Then-if :
      (b : Bool) (r : Run)
      → (b ≡ true → IsConsistent h r)
      → Then h origin (if b then some r else none)
  Then-if true r f = f refl
  Then-if false r f = tt

  at_phase-Then :
      (e : Event) (p : Phase) (r : Run)
      → r.phase ≡ p
      → Fits h p r
      → IsConsistent h r
      → Then h origin (at_phase h origin e p r)
  at_phase-Then task_begins waiting r q x c = begin-IsConsistent h origin r x c.told
  at_phase-Then (started_hook_ends true) starting r q (a, b, d) c = record {
    place = inl (b, d);
    told = c.told;
  }
  at_phase-Then (started_hook_ends false) starting r q x c = record { place = x; told = c.told }
  at_phase-Then (operation_ends y) operating r q x c =
      end_operation-IsConsistent h origin y r x c.told
  at_phase-Then operation_marks operating r q x c =
      IsConsistent-Same h r (mark_not_cancellable r) (mark_not_cancellable-Same h r) c
  at_phase-Then operation_crashes operating r q (a, b, d) c = record {
    place = inl (b, d);
    told = c.told;
  }
  at_phase-Then (terminal_hook_ends y) (closing e) r q (a, b, d) c =
      let m = complete-Same h r in
      ended-Fits h origin (ending_after h origin y e) (complete r) (ap is_active m.status ∙ a)
        (m.in_tasks ∙ b) (m.finisher ∙ d.0, m.in_finish_tasks ∙ d.1)
        (m.notified ∙ c.told ∙ ap (told_of h) (sym m.status))
  at_phase-Then task_done (ended e) r q x c =
      Then-if r.in_tasks _ (λ b. on_task_done-IsConsistent h origin e r q b x c.told)
  at_phase-Then cancel_asked p r q x c = IsConsistent-Same h r (cancel r) (cancel-Same h r) c
  at_phase-Then shutdown p r q x c =
      IsConsistent-Same h r (cancel_at_shutdown r) (cancel_at_shutdown-Same h r) c
  at_phase-Then _ _ r q x c = tt

  -- With a finisher at work, the task is gone.
  at_work :
      (f : Finisher) (r : Run)
      → r.finisher ≡ f
      → f ≢ no_task
      → Fits h r.phase r
      → Lost h origin r.phase × (r.in_tasks ≡ false) × Finishing h f r
  at_work f r q busy x = elim (finishing h origin r.phase r x) [
    | inl c ↦ absurd (busy (sym q ∙ c))
    | inr (l, b, y) ↦ (l, b, subst (λ g. Finishing h g r) q y)
  ]

  at_finisher-Then :
      (e : Event) (f : Finisher) (r : Run)
      → r.finisher ≡ f
      → IsConsistent h r
      → Then h origin (at_finisher h origin e f r)
  unfolding begin_finisher on_finish_task_done
  at_finisher-Then finisher_begins (pending status error) r q c =
      let (l, b, (t, k)) = at_work (pending status error) r q (λ e. cc) c.place in
      finish-Noted h origin (IsConsistent h) _ _ status error r t c.told
        (λ s n. record {
          place =
              lost-Fits h origin s.phase (set_finisher h origin at_hook s)
                (subst (Lost h origin) (sym n.phase) l) (n.in_tasks ∙ b)
                (n.terminal, n.in_finish_tasks ∙ k);
          told = n.told;
        })
        (λ s n. record {
          place =
              lost-Fits h origin s.phase (set_finisher h origin over s)
                (subst (Lost h origin) (sym n.phase) l) (n.in_tasks ∙ b) n.terminal;
          told = n.told;
        })
  at_finisher-Then finisher_hook_ends at_hook r q c =
      let (l, b, (t, k)) = at_work at_hook r q (λ e. cc) c.place in
      let m = complete-Same h r in
      record {
        place =
            lost-Fits h origin (complete r).phase (set_finisher h origin over (complete r))
              (subst (Lost h origin) (sym m.phase) l) (m.in_tasks ∙ b) (ap is_active m.status ∙ t);
        told = m.notified ∙ c.told ∙ ap (told_of h) (sym m.status);
      }
  at_finisher-Then finisher_done over r q c =
      let (l, b, t) = at_work over r q (λ e. cc) c.place in
      let s : Run = record r { in_finish_tasks = false } in
      Then-if r.in_finish_tasks _ (λ k.
        IsConsistent-Same h s (drop_completed_record s) (drop_completed_record-Same h s) (record {
          place = lost-Fits h origin r.phase s l b (subst (λ g. Finishing h g s) (sym q) t);
          told = c.told;
        }))
  at_finisher-Then _ _ r q c = tt

  pub step-IsConsistent :
      (e : Event) (r : Run) → IsConsistent h r → Then h origin (step h origin e r)
  unfolding step
  step-IsConsistent e r c = elim (Bool-cases (of_finisher h origin e)) [
    | inl f ↦ rw f (at_finisher-Then e r.finisher r refl c)
    | inr f ↦ rw f (at_phase-Then e r.phase r refl c.place c)
  ]
