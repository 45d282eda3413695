-- ===== src/Examples/Sendings.antt =====
-- Messages, one example for each theorem about them: a mail provider for everything and a push
-- provider for errors only, whose sends fail.
use dockkeep.Prelude.{◌≡◌, refl, true, false, none, some, List, [], ◌∷◌, ◌==◌, if◌then◌else◌}
use dockkeep.Prelude.Dict.{lookup}
use dockkeep.Config.{error_event, report_event}
use dockkeep.Manager.{manual, scheduler, RunStatus}
use dockkeep.Manager.Steps.{
  step, begin, finish, end_operation, on_task_done, begin_finisher, on_finish_task_done,
}
use dockkeep.Manager.{drop_completed_record, complete, new_run}
use dockkeep.Notifications.Events.{
  NotificationEvent, NotificationContext, ReportEvent, RunRecord, DispatchResult, Provider, backup,
  job_task,
}
use dockkeep.Notifications.Dispatcher.{
  Outlet, Sending, sent, not_sent, event, report, status_event_kinds, carrying_providers, notify,
  notify_report,
}
use dockkeep.Notifications.Delivery.{Delivers, receivers, notify-Delivers, notify_report-Delivers}
use dockkeep.Notifications.Routing.{Tells, kind_of, hook_calls, hook_calls-Tells}
use dockkeep.Examples.Lives.{hooks, whole_life, gone}

abbrev pub outlet : Outlet
outlet = λ done s. if s.0 == "mail" then sent else not_sent

abbrev providers : List Provider
providers =
    record { name = "mail"; events = none }
    ∷ record { name = "pushover"; events = some (error_event ∷ []) }
    ∷ []

abbrev context : NotificationContext
context = record {
  providers = providers;
  policy = record { notify_on_success = true; notify_on_error = true; notify_on_skipped = false };
  task_type = backup;
  task_name = "files";
  success_message = "done";
  failure_message = "failed";
  skipped_message = "skipped";
  unexpected_error_message = "unexpected";
  log_path = none;
}

abbrev failure_told : NotificationEvent
failure_told = record {
  job_name = "home";
  task_type = backup;
  task_name = "files";
  status = "failure";
  started_at = 3;
  finished_at = some 5;
  dry_run = false;
  message = "failed";
  log_path = none;
  error = some "no space";
}

abbrev weekly : ReportEvent
weekly = record {
  window_start = 0;
  window_end = 9;
  generated_at = 10;
  status_counts = [];
  runs = [];
}

abbrev pub finished_run : RunRecord
finished_run = record {
  run_id = "r1";
  origin = scheduler;
  run_kind = job_task;
  job = "home";
  task_type = "backup";
  task_name = "files";
  status = RunStatus.success;
  dry_run = false;
  created_at = 2;
  started_at = some 3;
  finished_at = some 5;
  error = none;
  notify_ctx = some context;
}

notify-Delivers_example :
    (x : DispatchResult × List Sending) × ((notify outlet providers failure_told context.policy []
        ≡ some x)
      × Delivers
          (event failure_told)
          (receivers context.policy (lookup "failure" status_event_kinds) providers)
          []
          x)
notify-Delivers_example = notify-Delivers outlet providers failure_told context.policy []

notify_report-Delivers_example :
    Delivers
      (report weekly)
      (carrying_providers providers report_event)
      []
      (notify_report outlet providers weekly [])
notify_report-Delivers_example = notify_report-Delivers outlet providers weekly []

hook_calls-Tells_example :
    Tells finished_run context
      (kind_of RunStatus.success)
      []
      (hook_calls outlet finished_run context 3 gone.notified [])
unfolding step begin finish end_operation on_task_done begin_finisher on_finish_task_done
    drop_completed_record complete new_run
hook_calls-Tells_example =
    hook_calls-Tells outlet finished_run context 3 hooks manual whole_life gone [] refl refl
