-- ===== src/Notifications/Events.antt =====
-- notifications/events.py and notifications/context.py, with the record of a run that the hooks read
-- (services/run_manager.py). Times are numbers of microseconds.
use dockkeep.Prelude.{ℕ, ◌<>◌, String, Bool, Option, none, some, List, [], ◌∷◌}
use dockkeep.Prelude.Dict.{Dict}
use dockkeep.Config.{
  NotificationEventKind, NotificationsConfig, ProvidersConfig, MailConfig, PushoverConfig,
}
use dockkeep.Manager.{RunOrigin, RunStatus}

pub record NotificationPolicy : Type 0 where
  pub notify_on_success : Bool
  pub notify_on_error : Bool
  pub notify_on_skipped : Bool

pub data TaskType : Type 0 where
  backup workflow rclone : TaskType

pub record NotificationEvent : Type 0 where
  pub job_name : String
  pub task_type : TaskType
  pub task_name : String
  pub status : String
  pub started_at : ℕ
  pub finished_at : Option ℕ
  pub dry_run : Bool
  pub message : String
  pub log_path : Option String
  pub error : Option String

pub record RunSummary : Type 0 where
  pub origin : RunOrigin
  pub job : String
  pub target : String
  pub status : RunStatus
  pub started_at : ℕ
  pub finished_at : Option ℕ
  pub duration : Option ℕ
  pub dry_run : Bool
  pub error : Option String

pub record ReportEvent : Type 0 where
  pub window_start : ℕ
  pub window_end : ℕ
  pub generated_at : ℕ
  pub status_counts : Dict ℕ
  pub runs : List RunSummary

pub record DispatchResult : Type 0 where
  pub attempted : ℕ
  pub succeeded : ℕ
  pub failed : ℕ

-- What the dispatcher knows of a provider: its name and the kinds it is limited to.
pub record Provider : Type 0 where
  pub name : String
  pub events : Option (List NotificationEventKind)

-- `NotificationDispatcher._build_providers`
mail_provider : Option MailConfig → List Provider → List Provider
mail_provider none ps = ps
mail_provider (some c) ps = record { name = "mail"; events = c.events } ∷ ps

pushover_provider : Option PushoverConfig → List Provider
pushover_provider none = []
pushover_provider (some c) = record { name = "pushover"; events = c.events } ∷ []

unfoldable pub build_providers : ProvidersConfig → List Provider
unfolding mail_provider pushover_provider
build_providers c = mail_provider c.mail (pushover_provider c.pushover)

pub record NotificationContext : Type 0 where
  pub providers : List Provider
  pub policy : NotificationPolicy
  pub task_type : TaskType
  pub task_name : String
  pub success_message : String
  pub failure_message : String
  pub skipped_message : String
  pub unexpected_error_message : String
  pub log_path : Option String

unfoldable pub notification_policy : NotificationsConfig → NotificationPolicy
notification_policy c = record {
  notify_on_success = c.notify_on_success;
  notify_on_error = c.notify_on_error;
  notify_on_skipped = c.notify_on_skipped;
}

-- `task_type.capitalize()`
abbrev label_of : TaskType → String
label_of backup = "Backup"
label_of workflow = "Workflow"
label_of rclone = "Rclone"

unfoldable pub build_notification_context :
    ProvidersConfig
    → NotificationsConfig
    → TaskType
    → String
    → String
    → Option String
    → NotificationContext
unfolding build_providers notification_policy
build_notification_context providers notifications task_type task_name display_target log_path =
    let subject = label_of task_type <> (" " <> display_target) in
    record {
      providers = build_providers providers;
      policy = notification_policy notifications;
      task_type = task_type;
      task_name = task_name;
      success_message = subject <> " completed successfully";
      failure_message = subject <> " failed";
      skipped_message = subject <> " skipped: job already running";
      unexpected_error_message = subject <> " encountered an unexpected error";
      log_path = log_path;
    }

pub data RunKind : Type 0 where
  job_task restore : RunKind

-- The fields of a record that its readers use.
pub record RunRecord : Type 0 where
  pub run_id : String
  pub origin : RunOrigin
  pub run_kind : RunKind
  pub job : String
  pub task_type : String
  pub task_name : String
  pub status : RunStatus
  pub dry_run : Bool
  pub created_at : ℕ
  pub started_at : Option ℕ
  pub finished_at : Option ℕ
  pub error : Option String
  pub notify_ctx : Option NotificationContext

unfoldable pub format_run_target : RunKind → String → String → String → String
format_run_target restore job task_type task_name = job <> (".restore." <> task_name)
format_run_target job_task job task_type task_name =
    job <> ("." <> (task_type <> ("." <> task_name)))

-- `RunStatus.value`
unfoldable pub value : RunStatus → String
value RunStatus.queued = "queued"
value RunStatus.running = "running"
value RunStatus.success = "success"
value RunStatus.failed = "failed"
value RunStatus.cancelled = "cancelled"
value RunStatus.skipped = "skipped"
value RunStatus.lock_error = "lock_error"
value RunStatus.config_error = "config_error"
value RunStatus.unexpected_error = "unexpected_error"
