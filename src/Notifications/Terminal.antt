-- ===== src/Notifications/Terminal.antt =====
-- services/terminal_hooks.py: what follows the end of a run. The providers' answers and the answer
-- of the run history come from outside.
use dockkeep.Prelude.{
  ℕ, String, Bool, Option, none, some, List, [], ◌∷◌, ◌++◌, ◌||◌, ◌==◌, if◌then◌else◌,
}
use dockkeep.Prelude.Dict.{Dict, lookup}
use dockkeep.Notifications.Events.{NotificationEvent, NotificationContext, RunRecord, value}
use dockkeep.Notifications.Dispatcher.{Outlet, Sending, notify}

pub data MessageField : Type 0 where
  success_message failure_message skipped_message unexpected_error_message : MessageField

-- `_NOTIFICATION_STATUS`
abbrev pub notification_status : Dict (String × MessageField)
notification_status =
    ("success", ("success", success_message))
    ∷ ("failed", ("failure", failure_message))
    ∷ ("skipped", ("skipped", skipped_message))
    ∷ ("lock_error", ("lock_error", failure_message))
    ∷ ("config_error", ("config_error", failure_message))
    ∷ ("unexpected_error", ("unexpected_error", unexpected_error_message))
    ∷ []

-- `getattr(context, message_field)`
unfoldable pub message_of : NotificationContext → MessageField → String
message_of c success_message = c.success_message
message_of c failure_message = c.failure_message
message_of c skipped_message = c.skipped_message
message_of c unexpected_error_message = c.unexpected_error_message

unfoldable pub event_of :
    RunRecord → NotificationContext → ℕ → String → MessageField → NotificationEvent
unfolding message_of
event_of r c started_at status field = record {
  job_name = r.job;
  task_type = c.task_type;
  task_name = c.task_name;
  status = status;
  started_at = started_at;
  finished_at = r.finished_at;
  dry_run = r.dry_run;
  message = message_of c field;
  log_path = c.log_path;
  error = if status == "success" || status == "skipped" then none else r.error;
}

-- What has been sent after `notify`; an exception leaves what was sent before.
abbrev pub sent_by : {R : Type 0} → Option (R × List Sending) → List Sending → List Sending
sent_by none done = done
sent_by (some (r, now)) done = now

notify_mapped :
    Outlet
    → RunRecord
    → NotificationContext
    → ℕ
    → Option (String × MessageField)
    → List Sending
    → List Sending
unfolding event_of notify
notify_mapped o r c started_at none done = done
notify_mapped o r c started_at (some (status, field)) done =
    sent_by (notify o c.providers (event_of r c started_at status field) c.policy done) done

notify_started : Outlet → RunRecord → NotificationContext → Option ℕ → List Sending → List Sending
unfolding notify_mapped
notify_started o r c none done = done
notify_started o r c (some started_at) done =
    notify_mapped o r c started_at (lookup (value r.status) notification_status) done

notify_in : Outlet → RunRecord → Option NotificationContext → List Sending → List Sending
unfolding notify_started
notify_in o r none done = done
notify_in o r (some c) done = notify_started o r c r.started_at done

unfoldable pub terminal_notification_hook : Outlet → RunRecord → List Sending → List Sending
unfolding notify_in
terminal_notification_hook o r done = notify_in o r r.notify_ctx done

-- What the hooks of a run leave: the records in the history and the messages.
pub record Afterwards : Type 0 where
  pub recorded : List RunRecord
  pub sendings : List Sending

-- The history either stores a record or raises, which is only logged.
unfoldable pub terminal_run_hook :
    Outlet → (List RunRecord → RunRecord → Bool) → RunRecord → Afterwards → Afterwards
unfolding terminal_notification_hook
terminal_run_hook o stores r w = record {
  recorded = if stores w.recorded r then w.recorded ++ r ∷ [] else w.recorded;
  sendings = terminal_notification_hook o r w.sendings;
}
