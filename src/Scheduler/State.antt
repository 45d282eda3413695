-- ===== src/Scheduler/State.antt =====
-- What the scheduler keeps and does, and what it asks from outside.
use dockkeep.Prelude.{ℕ, String, Bool, Option, List, ◌∷◌}
use dockkeep.Config.{AppConfig}
use dockkeep.Notifications.Events.{TaskType, NotificationContext, RunRecord, ReportEvent}
use dockkeep.Notifications.Dispatcher.{Outlet, Sending}
use dockkeep.Scheduler.Due.{Cron}

-- A result, or the text of an exception.
pub data Answer {ℓ} (A : Type ℓ) : Type ℓ where
  answer : A → Answer A
  error : String → Answer A

-- SchedulerStatusError
pub record StatusError : Type 0 where
  pub code : String
  pub message : String

-- What is passed to `RunManager.start` of the task.
pub record Task : Type 0 where
  pub job : String
  pub kind : TaskType
  pub name : String
  pub context : NotificationContext

pub data Activity : Type 0 where
  running stopped : Activity

-- SchedulerStartState
pub data StartState : Type 0 where
  started scheduler_lock_error unexpected_error : StartState

-- The effects, in the order of the code.
pub data Action : Type 0 where
  task_started : Task → Action
  status_written : Activity → Option StatusError → Action
  logs_cleaned : ℕ → Action
  report_built : ReportEvent → Action
  slept locked unlocked : Action
  socket_opened socket_closed : Action
  runs_interrupted : Action
  manager_shut_down : Action
  start_result : StartState → Option String → Action

-- The latest action first.
abbrev pub Trace : Type 0
Trace = List Action

pub record Outside : Type 0 where
  pub cron : Cron
  -- the configuration file: the time of `stat`, the digest (`none` if it cannot be read), and
  -- `load_config`
  pub stat : Trace → Answer ℕ
  pub digest : Trace → Option String
  pub load : Trace → Answer AppConfig
  -- `RunManager.start`
  pub start : Trace → Task → Answer (Unit {0})
  -- `cleanup_all_old_logs`
  pub cleanup : Trace → ℕ → Answer ℕ
  -- `RunHistoryService.list_finished_between`
  pub finished_between : Trace → ℕ → ℕ → Answer (List RunRecord)
  pub outlet : Outlet
  -- `date.today()` as a text, and the day of a time
  pub today : Trace → String
  pub day_of : ℕ → ℕ
  -- `FileLock.acquire` of SchedulerLock: `false` for Timeout, or another exception
  pub lock : Trace → Answer Bool
  -- `RunHistoryService.mark_active_runs_interrupted`
  pub interrupt : Trace → Answer (Unit {0})
  -- `RunControlServer.start`
  pub open_socket : Trace → Answer (Unit {0})
  -- `datetime.now(UTC)` when the loop begins
  pub clock : Trace → ℕ

pub record State : Type 0 where
  pub config : AppConfig
  pub has_config_path : Bool
  pub config_mtime : Option ℕ
  pub config_digest : Option String
  pub reload_error : Option StatusError
  -- `owner == "gui"`: runs are kept in the history
  pub persistent : Bool
  pub has_status_writer : Bool
  pub has_start_callback : Bool
  pub log_base_dir : String
  -- the lock file of SchedulerLock
  pub lock_path : String
  pub start_time : Option ℕ
  pub last_check_time : Option ℕ
  pub last_log_cleanup_day : Option ℕ
  pub report_buffer : List RunRecord
  pub last_report_window_end : Option ℕ
  pub trace : Trace
  pub sendings : List Sending

abbrev pub act : Action → State → State
act a s = record s { trace = a ∷ s.trace }

-- Where an exception may leave a method: its text, or nothing.
abbrev pub Step : Type 0
Step = State → Option String × State
