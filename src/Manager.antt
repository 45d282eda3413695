-- ===== src/Manager.antt =====
-- services/run_manager.py: the life of one run, from `start` to the removal of its record. The tasks
-- of asyncio are taken apart at their awaits: what runs between two awaits is one function, and an
-- event says which await ends and how, in any order.
pub mod Steps
pub mod Life
pub mod Keep
pub mod Final
use dockkeep.Prelude.{
  String, Bool, true, false, not, ◌&&◌, ◌||◌, Option, none, some, List, [], ◌∷◌, if◌then◌else◌,
}

pub data RunOrigin : Type 0 where
  manual scheduler : RunOrigin

pub data RunStatus : Type 0 where
  queued running success failed cancelled skipped lock_error config_error unexpected_error :
      RunStatus

-- `_ACTIVE_STATUSES`
abbrev pub is_active : RunStatus → Bool
is_active queued = true
is_active running = true
is_active _ = false

-- How the task of a run ends.
pub data Ending : Type 0 where
  returned was_cancelled crashed : Ending

-- Where `_execute` stands: not begun, at the started hook, in the operation, at the terminal hook of
-- `_finish`, or ended.
pub data Phase : Type 0 where
  waiting starting operating : Phase
  closing ended : Ending → Phase

-- The task that `_on_task_done` creates for `_finish`: none, not begun with its arguments, at the
-- terminal hook, or ended.
pub data Finisher : Type 0 where
  no_task : Finisher
  pending : RunStatus → Option String → Finisher
  at_hook over : Finisher

-- The record of a run, and whether its identifier is a key of `_runs`, `_tasks`, `_finish_tasks`,
-- `_terminal_events` and in `_cancel_requested`. `notified` has the statuses that the terminal hook
-- was called with.
pub record Run : Type 0 where
  pub status : RunStatus
  pub cancellable : Bool
  pub error : Option String
  pub phase : Phase
  pub finisher : Finisher
  pub in_runs : Bool
  pub in_tasks : Bool
  pub in_finish_tasks : Bool
  pub in_events : Bool
  pub cancel_requested : Bool
  pub notified : List RunStatus

-- `start`, for an identifier that is not in use.
unfoldable pub new_run : Run
new_run = record {
  status = queued;
  cancellable = true;
  error = none;
  phase = waiting;
  finisher = no_task;
  in_runs = true;
  in_tasks = true;
  in_finish_tasks = false;
  in_events = true;
  cancel_requested = false;
  notified = [];
}

-- `_drop_completed_record`
unfoldable pub drop_completed_record : Run → Run
drop_completed_record r =
    if is_active r.status || (r.in_tasks || (r.in_finish_tasks || r.in_events))
    then r
    else record r { in_runs = false }

-- `_mark_terminal_complete` with the drop that always follows it.
unfoldable pub complete : Run → Run
unfolding drop_completed_record
complete r = drop_completed_record (record r { in_events = false })

-- `_mark_not_cancellable`
unfoldable pub mark_not_cancellable : Run → Run
mark_not_cancellable r = if is_active r.status then record r { cancellable = false } else r

-- `cancel`: `_cancel_task` where the task is there.
unfoldable pub cancel : Run → Run
cancel r =
    if is_active r.status && (r.cancellable && r.in_tasks)
    then record r { cancel_requested = true }
    else r

abbrev pub has_ended : Phase → Bool
has_ended (ended e) = true
has_ended _ = false

-- The loop of `shutdown` over the tasks.
unfoldable pub cancel_at_shutdown : Run → Run
cancel_at_shutdown r =
    if r.in_tasks && (not (has_ended r.phase) && r.cancellable)
    then record r { cancel_requested = true }
    else r

-- How the operation ends: a result, or an exception with its text.
pub data Result : Type 0 where
  result : Bool → Result
  cancellation : Result
  already_running config_failure unexpected other : String → Result

-- The handlers of `_execute`: the status and the error that `_finish` is called with, and how the
-- task ends after it.
abbrev pub status_of : RunOrigin → Result → RunStatus
status_of origin (result true) = success
status_of origin (result false) = failed
status_of origin cancellation = cancelled
status_of manual (already_running e) = lock_error
status_of scheduler (already_running e) = skipped
status_of origin (config_failure e) = config_error
status_of origin (unexpected e) = unexpected_error
status_of origin (other e) = unexpected_error

abbrev pub error_of : Result → Option String
error_of (result b) = none
error_of cancellation = none
error_of (already_running e) = some e
error_of (config_failure e) = some e
error_of (unexpected e) = some e
error_of (other e) = some e

abbrev pub ending_of : Result → Ending
ending_of cancellation = was_cancelled
ending_of _ = returned
