-- ===== src/Examples.antt =====
-- Test data: surroundings in which everything is granted, and a job with a backup, an rclone task
-- and a workflow.
mod Runs
mod Texts
mod Executions
mod Streams
mod Lives
mod Ticks
mod Resolutions
mod Validations
mod Sendings
mod Statuses
use dockkeep.Prelude.{String, true, false, none, some, [], ◌∷◌}
use dockkeep.Config.{
  HooksConfig, NotificationsConfig, TimeoutsConfig, RetentionConfig, BackupConfig, RcloneTaskConfig,
  WorkflowConfig, JobConfig,
}
use dockkeep.Effects.{Outside, World, ok, exit, granted, has_entries}
use dockkeep.Runner.{Settings}

abbrev pub calm : Outside
calm = record {
  process = λ t p. record { lines = []; ending = exit 0 };
  lock = λ t path. granted;
  wakes = λ t. false;
  create_step = λ t step. ok "s1";
  finish_step = λ t id status. ok tt;
  collect = λ t name context. ok tt;
  complete = λ t. ok tt;
  json_object = λ line. none;
  environ = ("RESTIC_PASSWORD_COMMAND", "pass") ∷ [];
  expanduser = λ path. path;
  resolve = λ t path. path;
  path_facts = λ t path. record { exists = true; is_dir = true; is_file = true; executable = true };
  resolve_error = λ t path. none;
  source_dir = λ t path. has_entries;
}

abbrev pub no_hooks : HooksConfig
no_hooks = record { pre_hooks = []; post_hooks = []; on_error_hooks = [] }

abbrev pub no_timeouts : TimeoutsConfig
no_timeouts = record { backup_timeout = none; rclone_timeout = none; hook_timeout = none }

abbrev pub on_error : NotificationsConfig
on_error = record { notify_on_success = false; notify_on_error = true; notify_on_skipped = false }

abbrev pub keep_week : RetentionConfig
keep_week = record {
  keep_last = none;
  keep_hourly = none;
  keep_daily = some 7;
  keep_weekly = none;
  keep_monthly = none;
  keep_yearly = none;
  keep_within = none;
  keep_within_hourly = none;
  keep_within_daily = none;
  keep_within_weekly = none;
  keep_within_monthly = none;
  keep_within_yearly = none;
}

abbrev pub files : BackupConfig
files = record {
  repository = "/backups/files";
  schedule = some "0 2 * * *";
  tags = "nightly" ∷ [];
  credentials = record { password = some "secret"; password_env = none; password_file = none };
  input = record { sources = "/data" ∷ []; source_files = [] };
  filters = record { exclude = "*.tmp" ∷ []; exclude_files = [] };
  retention = keep_week;
  execution = record { retention = true; cleanup = false; auto_init = true };
  hooks = no_hooks;
  notifications = on_error;
  timeouts = no_timeouts;
  restic = record {
    exclude_caches = some true;
    one_file_system = none;
    extra_backup_args = "--limit-upload 100" ∷ [];
    extra_forget_args = [];
    extra_prune_args = [];
  };
}

abbrev pub mirror : RcloneTaskConfig
mirror = record {
  source = "/backups/files";
  target = "cloud:files";
  sync_delete = some true;
  exclude = [];
  filter_from = none;
  schedule = some "0 4 * * *";
  hooks = no_hooks;
  options = record { transfers = none; checkers = none; bwlimit = none; extra_args = [] };
  notifications = on_error;
  timeouts = no_timeouts;
}

abbrev pub job : JobConfig
job = record {
  backup = ("files", files) ∷ [];
  rclone = ("mirror", mirror) ∷ [];
  workflows =
      (
        "all",
        record {
          schedule = none;
          steps = "backup.files" ∷ "rclone.mirror" ∷ [];
          hooks = no_hooks;
          notifications = on_error;
          timeouts = no_timeouts;
        },
      )
      ∷ [];
  hooks = record { pre_hooks = "true" ∷ []; post_hooks = []; on_error_hooks = [] };
  notifications = on_error;
  timeouts = no_timeouts;
}

abbrev pub settings : Settings
settings = record {
  job_name = "home";
  job = job;
  dry_run = false;
  lock_dir = "/locks";
  retry_count = some 2;
  retry_delay = some 5;
  run_id = some "r1";
  has_history = true;
  has_on_success = true;
  has_on_complete = true;
  digest = λ resource. "00";
}

abbrev pub dry_settings : Settings
dry_settings = record settings { dry_run = true }

abbrev pub start : World
start = record { trace = []; held = []; artifacts = []; step_ids = [] }
