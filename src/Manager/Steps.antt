-- ===== src/Manager/Steps.antt =====
-- The steps of a run: what happens between two awaits (services/run_manager.py).
use dockkeep.Prelude.{String, Bool, true, false, Option, none, some, ◌∷◌, if◌then◌else◌}
use dockkeep.Manager.{
  RunOrigin, RunStatus, running, cancelled, unexpected_error, is_active, Ending, returned,
  was_cancelled, crashed, Phase, waiting, starting, operating, closing, ended, Finisher, pending,
  at_hook, over, Run, drop_completed_record, complete, mark_not_cancellable, cancel,
  cancel_at_shutdown, Result, status_of, error_of, ending_of,
}

-- An end of an await has `true` where a cancellation has come meanwhile.
pub data Event : Type 0 where
  task_begins task_done finisher_begins finisher_hook_ends finisher_done : Event
  started_hook_ends terminal_hook_ends : Bool → Event
  operation_ends : Result → Event
  operation_marks operation_crashes cancel_asked shutdown : Event

-- Whether the manager has the hooks.
pub record Hooks : Type 0 where
  pub on_started : Bool
  pub on_terminal : Bool

module _ (h : Hooks) (origin : RunOrigin) where
  -- The part of `_finish` before its await, where the phase or the finisher at the await is `wait`
  -- and without an await is `done`.
  unfoldable pub finish : (Run → Run) → (Run → Run) → RunStatus → Option String → Run → Run
  finish wait done status error r =
      let noted = record r { status = status; error = error } in
      if is_active r.status
      then (if h.on_terminal
          then wait (record noted { notified = status ∷ r.notified })
          else done (complete noted))
      else done (complete r)

  abbrev pub set_phase : Phase → Run → Run
  set_phase p r = record r { phase = p }

  abbrev pub set_finisher : Finisher → Run → Run
  set_finisher f r = record r { finisher = f }

  -- The beginning of `_execute`; a task that is cancelled before does not begin.
  unfoldable pub begin : Run → Run
  begin r =
      if r.cancel_requested
      then set_phase (ended was_cancelled) r
      else record r { status = running; phase = if h.on_started then starting else operating }

  unfoldable pub end_operation : Result → Run → Run
  unfolding finish
  end_operation x r =
      finish (set_phase (closing (ending_of x))) (set_phase (ended (ending_of x)))
        (status_of origin x) (error_of x) r

  abbrev pub ending_after : Bool → Ending → Ending
  ending_after true e = was_cancelled
  ending_after false e = e

  -- `_on_task_done`
  abbrev pub follow_up : Ending → Run → Run
  follow_up returned r = r
  follow_up was_cancelled r = record r { finisher = pending cancelled none; in_finish_tasks = true }
  follow_up crashed r = record r {
    finisher = pending unexpected_error (some "Run manager task failed");
    in_finish_tasks = true;
  }

  unfoldable pub on_task_done : Ending → Run → Run
  on_task_done e r =
      drop_completed_record (record (follow_up e r) { in_tasks = false; cancel_requested = false })

  unfoldable pub begin_finisher : RunStatus → Option String → Run → Run
  unfolding finish
  begin_finisher status error r = finish (set_finisher at_hook) (set_finisher over) status error r

  -- `_on_finish_task_done`
  unfoldable pub on_finish_task_done : Run → Run
  on_finish_task_done r = drop_completed_record (record r { in_finish_tasks = false })

  -- One step of the code of the run; `none` where it does not stand at this await.
  abbrev pub at_phase : Event → Phase → Run → Option Run
  at_phase task_begins waiting r = some (begin r)
  at_phase (started_hook_ends true) starting r = some (set_phase (ended was_cancelled) r)
  at_phase (started_hook_ends false) starting r = some (set_phase operating r)
  at_phase (operation_ends x) operating r = some (end_operation x r)
  at_phase operation_marks operating r = some (mark_not_cancellable r)
  at_phase operation_crashes operating r = some (set_phase (ended crashed) r)
  at_phase (terminal_hook_ends c) (closing e) r =
      some (set_phase (ended (ending_after c e)) (complete r))
  at_phase task_done (ended e) r = if r.in_tasks then some (on_task_done e r) else none
  at_phase cancel_asked p r = some (cancel r)
  at_phase shutdown p r = some (cancel_at_shutdown r)
  at_phase _ _ r = none

  abbrev pub at_finisher : Event → Finisher → Run → Option Run
  at_finisher finisher_begins (pending status error) r = some (begin_finisher status error r)
  at_finisher finisher_hook_ends at_hook r = some (set_finisher over (complete r))
  at_finisher finisher_done over r =
      if r.in_finish_tasks then some (on_finish_task_done r) else none
  at_finisher _ _ r = none

  abbrev pub of_finisher : Event → Bool
  of_finisher finisher_begins = true
  of_finisher finisher_hook_ends = true
  of_finisher finisher_done = true
  of_finisher _ = false

  unfoldable pub step : Event → Run → Option Run
  unfolding begin end_operation on_task_done begin_finisher on_finish_task_done
  step e r = if of_finisher e then at_finisher e r.finisher r else at_phase e r.phase r
