-- ===== src/Examples/Lives.antt =====
-- A run that is cancelled while its success is being recorded, one example for each theorem about
-- the lives of runs.
use dockkeep.Prelude.{◌≡◌, refl, true, false, none, List, [], ◌∷◌}
use dockkeep.Manager.{
  is_active, manual, success, returned, was_cancelled, closing, ended, no_task, over, Run, result,
  new_run, drop_completed_record, complete,
}
use dockkeep.Manager.Steps.{
  Event, task_begins, task_done, finisher_begins, finisher_done, terminal_hook_ends, operation_ends,
  Hooks, step, begin, finish, end_operation, on_task_done, begin_finisher, on_finish_task_done,
}
use dockkeep.Manager.Final.{notified-after, status-after, step-after}

abbrev pub hooks : Hooks
hooks = record { on_started = false; on_terminal = true }

abbrev recorded : Run
recorded = record {
  status = success;
  cancellable = true;
  error = none;
  phase = closing returned;
  finisher = no_task;
  in_runs = true;
  in_tasks = true;
  in_finish_tasks = false;
  in_events = true;
  cancel_requested = false;
  notified = success ∷ [];
}

abbrev pub gone : Run
gone = record recorded {
  phase = ended was_cancelled;
  finisher = over;
  in_runs = false;
  in_tasks = false;
  in_events = false;
}

abbrev success_told : List Event
success_told = task_begins ∷ operation_ends (result true) ∷ []

abbrev pub whole_life : List Event
whole_life =
    task_begins
    ∷ operation_ends (result true)
    ∷ terminal_hook_ends true
    ∷ task_done
    ∷ finisher_begins
    ∷ finisher_done
    ∷ []

notified-after_example : gone.notified ≡ success ∷ []
unfolding step begin finish end_operation on_task_done begin_finisher on_finish_task_done
    drop_completed_record complete new_run
notified-after_example = notified-after hooks manual whole_life gone refl

status-after_example : is_active gone.status ≡ false
unfolding step begin finish end_operation on_task_done begin_finisher on_finish_task_done
    drop_completed_record complete new_run
status-after_example = status-after hooks manual whole_life gone refl refl refl

step-after_example : gone.status ≡ recorded.status
unfolding step begin finish end_operation drop_completed_record complete new_run
step-after_example =
    step-after hooks manual success_told recorded
      (record recorded { phase = ended was_cancelled; in_events = false }) (terminal_hook_ends true)
      refl refl refl
