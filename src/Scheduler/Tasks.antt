-- ===== src/Scheduler/Tasks.antt =====
-- `_check_and_run` with `_run_backup`, `_run_workflow`, `_run_rclone` and `_notification_context`.
use dockkeep.Prelude.{
  ◌<>◌, ℕ, String, Bool, false, Option, none, some, List, [], ◌∷◌, ◌++◌, if◌then◌else◌, is_empty,
}
use dockkeep.Prelude.Dict.{Dict}
use dockkeep.Config.{NotificationsConfig, BackupConfig, WorkflowConfig, RcloneTaskConfig, JobConfig}
use dockkeep.Notifications.Events.{
  TaskType, backup, workflow, rclone, NotificationContext, build_notification_context,
}
use dockkeep.Scheduler.State.{Answer, answer, error, Task, task_started, Outside, State, act, Step}
use dockkeep.Scheduler.Due.{is_due}
use dockkeep.Scheduler.Reports.{is_due_at, send_report_if_due}

-- What the loops read of a task of a job.
pub record Entry : Type 0 where
  pub job : String
  pub kind : TaskType
  pub name : String
  pub schedule : Option String
  pub notifications : NotificationsConfig

backup_entries : String → Dict BackupConfig → List Entry
backup_entries job [] = []
backup_entries job ((name, b) ∷ bs) =
    record {
      job = job;
      kind = backup;
      name = name;
      schedule = b.schedule;
      notifications = b.notifications;
    }
    ∷ backup_entries job bs

workflow_entries : String → Dict WorkflowConfig → List Entry
workflow_entries job [] = []
workflow_entries job ((name, w) ∷ ws) =
    record {
      job = job;
      kind = workflow;
      name = name;
      schedule = w.schedule;
      notifications = w.notifications;
    }
    ∷ workflow_entries job ws

rclone_entries : String → Dict RcloneTaskConfig → List Entry
rclone_entries job [] = []
rclone_entries job ((name, r) ∷ rs) =
    record {
      job = job;
      kind = rclone;
      name = name;
      schedule = r.schedule;
      notifications = r.notifications;
    }
    ∷ rclone_entries job rs

-- The tasks in the order of the loops.
unfoldable pub entries : Dict JobConfig → List Entry
unfolding backup_entries workflow_entries rclone_entries
entries [] = []
entries ((name, j) ∷ js) =
    backup_entries name j.backup
    ++ (workflow_entries name j.workflows ++ (rclone_entries name j.rclone ++ entries js))

abbrev kind_text : TaskType → String
kind_text backup = "backup"
kind_text workflow = "workflow"
kind_text rclone = "rclone"

unfoldable pub notification_context : Outside → State → Entry → NotificationContext
unfolding build_notification_context
notification_context o s e =
    build_notification_context s.config.global_.notifications e.notifications e.kind e.name
      (e.job <> ("." <> (kind_text e.kind <> ("." <> e.name))))
      (some (s.log_base_dir <> ("/" <> (e.job <> ("/" <> (o.today s.trace <> ".log"))))))

abbrev pub begun : Task → Answer (Unit {0}) → Step
begun t (answer _) s = (none, act (task_started t) s)
begun t (error e) s = (some e, s)

unfoldable pub start_task : Outside → Entry → Step
unfolding notification_context
start_task o e s =
    let t : Task = record {
      job = e.job;
      kind = e.kind;
      name = e.name;
      context = notification_context o s e;
    } in
    begun t (o.start s.trace t) s

abbrev pub chain : Option String × State → Step → Option String × State
chain (none, s) next = next s
chain (some e, s) next = (some e, s)

abbrev pub scheduled : (String → Bool) → Option String → Bool
scheduled due none = false
scheduled due (some schedule) = if is_empty schedule then false else due schedule

-- The loops, with the test of a schedule against the tick.
unfoldable pub start_due : Outside → (String → Bool) → List Entry → Step
unfolding start_task
start_due o due [] s = (none, s)
start_due o due (e ∷ es) s =
    if scheduled due e.schedule
    then chain (start_task o e s) (start_due o due es)
    else start_due o due es s

unfoldable pub check_and_run : Outside → ℕ → Step
unfolding send_report_if_due start_due entries is_due
check_and_run o now s =
    chain (send_report_if_due o now s)
      λ s1. start_due o (is_due_at o s1 now) (entries s1.config.jobs) s1
