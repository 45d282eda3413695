-- ===== src/Manager/Final.antt =====
-- A run after any sequence of events (services/run_manager.py).
use dockkeep.Prelude.{
  ◌≡◌, refl, sym, ◌∙◌, subst, false≢true, Bool, true, false, inl, inr, Option, none, some, List, [],
  ◌∷◌, if◌then◌else◌, Bool-cases,
}
use dockkeep.Manager.{
  RunOrigin, RunStatus, is_active, Ending, returned, was_cancelled, crashed, Phase, waiting,
  starting, operating, closing, ended, Finisher, no_task, pending, at_hook, over, Run, new_run,
}
use dockkeep.Manager.Steps.{
  Event, task_begins, task_done, finisher_begins, finisher_hook_ends, finisher_done,
  started_hook_ends, terminal_hook_ends, operation_ends, operation_marks, operation_crashes,
  cancel_asked, shutdown, Hooks, on_task_done, begin_finisher, on_finish_task_done, follow_up,
  finish, at_phase, at_finisher, of_finisher, step,
}
use dockkeep.Manager.Life.{
  IsConsistent, new_run-IsConsistent, complete-Same, drop_completed_record-Same, Fits, Then,
  Finishing, told_of,
}
use dockkeep.Manager.Keep.{
  mark_not_cancellable-Same, cancel-Same, cancel_at_shutdown-Same, step-IsConsistent,
}

module _ (h : Hooks) (origin : RunOrigin) where
  abbrev next : List Event → Option Run → Option Run
  next [] r = r
  next (e ∷ es) none = none
  next (e ∷ es) (some r) = next es (step h origin e r)

  -- The run after these events, if they are possible in this order.
  abbrev pub after : List Event → Option Run
  after events = next events (some new_run)

  next-Then :
      (events : List Event) (x : Option Run) → Then h origin x → Then h origin (next events x)
  next-Then [] x t = t
  next-Then (e ∷ es) none t = tt
  next-Then (e ∷ es) (some r) c =
      next-Then es (step h origin e r) (step-IsConsistent h origin e r c)

  after-IsConsistent : (events : List Event) (r : Run) → after events ≡ some r → IsConsistent h r
  after-IsConsistent events r e =
      subst (Then h origin) e (next-Then events (some new_run) (new_run-IsConsistent h))

  -- Whatever happens to a run, and in any order, the terminal hook has been called for exactly the
  -- terminal status that the run has, and not at all while it is active.
  pub notified-after :
      (events : List Event) (r : Run) → after events ≡ some r → r.notified ≡ told_of h r.status
  notified-after events r e = (after-IsConsistent events r e).told

  clash : {P : Type 0} (b : Bool) → b ≡ true → b ≡ false → P
  clash b t f = absurd (false≢true (sym f ∙ t))

  finished :
      (f : Finisher) (r : Run)
      → Finishing h f r
      → r.in_finish_tasks ≡ false
      → is_active r.status ≡ false
  finished no_task r x k = absurd x
  finished (pending status error) r x k = clash r.in_finish_tasks x.1 k
  finished at_hook r x k = x.0
  finished over r x k = x

  settles :
      (p : Phase) (r : Run)
      → Fits h p r
      → r.in_tasks ≡ false
      → r.in_finish_tasks ≡ false
      → is_active r.status ≡ false
  settles waiting r (a, b, c) t k = clash r.in_tasks b t
  settles starting r (a, b, c) t k = clash r.in_tasks b t
  settles operating r (a, b, c) t k = clash r.in_tasks b t
  settles (closing e) r (a, b, c) t k = a
  settles (ended returned) r (a, c) t k = a
  settles (ended was_cancelled) r (inl (b, c)) t k = clash r.in_tasks b t
  settles (ended was_cancelled) r (inr (b, x)) t k = finished r.finisher r x k
  settles (ended crashed) r (inl (b, c)) t k = clash r.in_tasks b t
  settles (ended crashed) r (inr (b, x)) t k = finished r.finisher r x k

  -- A run that neither its task nor a finisher works on any more has a terminal status: none stays
  -- queued or running for ever, also where it is cancelled before it begins or in a hook.
  pub status-after :
      (events : List Event) (r : Run)
      → after events ≡ some r
      → r.in_tasks ≡ false
      → r.in_finish_tasks ≡ false
      → is_active r.status ≡ false
  status-after events r e t k = settles r.phase r (after-IsConsistent events r e).place t k

  abbrev Keeps : RunStatus → Option Run → Type 0
  Keeps status none = Unit
  Keeps status (some r) = r.status ≡ status

  Keeps-if :
      (b : Bool) (status : RunStatus) (r : Run)
      → r.status ≡ status
      → Keeps status (if b then some r else none)
  Keeps-if true status r e = e
  Keeps-if false status r e = tt

  follow_up-status : (e : Ending) (r : Run) → (follow_up h origin e r).status ≡ r.status
  follow_up-status returned r = refl
  follow_up-status was_cancelled r = refl
  follow_up-status crashed r = refl

  on_task_done-status : (e : Ending) (r : Run) → (on_task_done h origin e r).status ≡ r.status
  unfolding on_task_done
  on_task_done-status e r = (drop_completed_record-Same h _).status ∙ follow_up-status e r

  at_phase-Keeps :
      (e : Event) (p : Phase) (r : Run)
      → Fits h p r
      → is_active r.status ≡ false
      → Keeps r.status (at_phase h origin e p r)
  at_phase-Keeps task_begins waiting r x t = clash (is_active r.status) x.0 t
  at_phase-Keeps (started_hook_ends true) starting r x t = refl
  at_phase-Keeps (started_hook_ends false) starting r x t = refl
  at_phase-Keeps (operation_ends y) operating r x t = clash (is_active r.status) x.0 t
  at_phase-Keeps operation_marks operating r x t = (mark_not_cancellable-Same h r).status
  at_phase-Keeps operation_crashes operating r x t = refl
  at_phase-Keeps (terminal_hook_ends y) (closing e) r x t = (complete-Same h r).status
  at_phase-Keeps task_done (ended e) r x t = Keeps-if r.in_tasks _ _ (on_task_done-status e r)
  at_phase-Keeps cancel_asked p r x t = (cancel-Same h r).status
  at_phase-Keeps shutdown p r x t = (cancel_at_shutdown-Same h r).status
  at_phase-Keeps _ _ r x t = tt

  at_finisher-Keeps :
      (e : Event) (f : Finisher) (r : Run)
      → is_active r.status ≡ false
      → Keeps r.status (at_finisher h origin e f r)
  unfolding begin_finisher finish on_finish_task_done
  at_finisher-Keeps finisher_begins (pending status error) r t = rw t (complete-Same h r).status
  at_finisher-Keeps finisher_hook_ends at_hook r t = (complete-Same h r).status
  at_finisher-Keeps finisher_done over r t =
      Keeps-if r.in_finish_tasks _ _ (drop_completed_record-Same h _).status
  at_finisher-Keeps _ _ r t = tt

  step-Keeps :
      (e : Event) (r : Run)
      → Fits h r.phase r
      → is_active r.status ≡ false
      → Keeps r.status (step h origin e r)
  unfolding step
  step-Keeps e r x t = elim (Bool-cases (of_finisher h origin e)) [
    | inl f ↦ rw f (at_finisher-Keeps e r.finisher r t)
    | inr f ↦ rw f (at_phase-Keeps e r.phase r x t)
  ]

  -- A terminal status is final: no later event of the run changes it, in particular no cancellation
  -- that comes while the terminal hook is at work.
  pub step-after :
      (events : List Event) (r s : Run) (e : Event)
      → after events ≡ some r
      → is_active r.status ≡ false
      → step h origin e r ≡ some s
      → s.status ≡ r.status
  step-after events r s e a t q =
      subst (Keeps r.status) q (step-Keeps e r (after-IsConsistent events r a).place t)
