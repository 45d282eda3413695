-- ===== src/Resolver/Assemble.antt =====
-- `resolve_config` of models/resolve.py and the functions that it distributes the values with. The
-- attributes of a level have the types of the raw models (models/config.py), which the package pydantic
-- checks; a value of another type reads as not set here.
use dockkeep.Prelude.{
  ℕ, String, Bool, true, false, not, Option, none, some, List, [], ◌∷◌, ◌==◌, if◌then◌else◌,
  is_empty, ltb,
}
use dockkeep.Prelude.Dict.{Dict, lookup}
use dockkeep.Config.{
  ExecutionConfig, Credentials, FiltersConfig, RetentionConfig, HooksConfig, TimeoutsConfig,
  ResticOptions, BackupConfig, WorkflowConfig, RcloneOptions, RcloneTaskConfig, JobConfig,
  NotificationsConfig, ProvidersConfig, GlobalConfig, AppConfig,
}
use dockkeep.Resolver.Fields.{
  Value, flag, number, text, texts, global, global_backup, global_rclone, job, job_backup,
  job_rclone, backup, workflow, rclone,
}
use dockkeep.Resolver.Levels.{
  Attributes, RawValues, ResolvedValues, get, bucket, resolve_level, raw_values, parent_raw_values,
  flatten,
}

pub record RawBackup : Type 0 where
  pub repository : String
  pub backend : String
  pub schedule : Option String
  pub tags : List String
  pub sources : Option (List String)
  pub source_files : Option (List String)
  pub attributes : Attributes

pub record RawWorkflow : Type 0 where
  pub schedule : Option String
  pub steps : List String
  pub attributes : Attributes

pub record RawRclone : Type 0 where
  pub source : String
  pub target : String
  pub schedule : Option String
  pub attributes : Attributes

pub record RawJob : Type 0 where
  pub attributes : Attributes
  pub backup_attributes : Attributes
  pub rclone_attributes : Attributes
  pub backups : Dict RawBackup
  pub rclones : Dict RawRclone
  pub workflows : Dict RawWorkflow

pub record RawApp : Type 0 where
  pub log_level : String
  pub log_retention_days : Option ℕ
  pub lock_retry_count : Option ℕ
  pub lock_retry_delay : Option ℕ
  pub notifications : ProvidersConfig
  pub attributes : Attributes
  pub backup_attributes : Attributes
  pub rclone_attributes : Attributes
  pub jobs : Dict RawJob

-- `bool(value)`
abbrev pub truth : Option Value → Bool
truth none = false
truth (some (flag b)) = b
truth (some (number n)) = ltb 0 n
truth (some (text s)) = not (is_empty s)
truth (some (texts [])) = false
truth (some (texts (x ∷ xs))) = true

abbrev pub as_flag : Option Value → Option Bool
as_flag (some (flag b)) = some b
as_flag _ = none

abbrev pub as_number : Option Value → Option ℕ
as_number (some (number n)) = some n
as_number _ = none

abbrev pub as_text : Option Value → Option String
as_text (some (text s)) = some s
as_text _ = none

-- `list(value)`, of nothing if it is not set.
abbrev pub as_texts : Option Value → List String
as_texts (some (texts xs)) = xs
as_texts _ = []

unfoldable pub assemble_execution : ResolvedValues → ExecutionConfig
assemble_execution r =
    let b = bucket "execution" r in
    record {
      retention = truth (get "retention" b);
      cleanup = truth (get "cleanup" b);
      auto_init = truth (get "auto_init" b);
    }

-- `os.environ.get(password_env) or None`
abbrev pub non_empty : Option String → Option String
non_empty none = none
non_empty (some s) = if is_empty s then none else some s

abbrev pub from_environ : Dict String → Option String → Option String → Option String
from_environ environ (some password) password_env = some password
from_environ environ none none = none
from_environ environ none (some name) = non_empty (lookup name environ)

unfoldable pub assemble_credentials : Dict String → ResolvedValues → Credentials
assemble_credentials environ r =
    let b = bucket "credentials" r in
    let password_env = as_text (get "password_env" b) in
    record {
      password = from_environ environ (as_text (get "password" b)) password_env;
      password_env = password_env;
      password_file = as_text (get "password_file" b);
    }

unfoldable pub assemble_filters : ResolvedValues → FiltersConfig
assemble_filters r =
    let b = bucket "filters" r in
    record {
      exclude = as_texts (get "exclude" b);
      exclude_files = as_texts (get "exclude_files" b);
    }

unfoldable pub assemble_retention : ResolvedValues → RetentionConfig
assemble_retention r =
    let b = bucket "retention" r in
    record {
      keep_last = as_number (get "keep_last" b);
      keep_hourly = as_number (get "keep_hourly" b);
      keep_daily = as_number (get "keep_daily" b);
      keep_weekly = as_number (get "keep_weekly" b);
      keep_monthly = as_number (get "keep_monthly" b);
      keep_yearly = as_number (get "keep_yearly" b);
      keep_within = as_text (get "keep_within" b);
      keep_within_hourly = as_text (get "keep_within_hourly" b);
      keep_within_daily = as_text (get "keep_within_daily" b);
      keep_within_weekly = as_text (get "keep_within_weekly" b);
      keep_within_monthly = as_text (get "keep_within_monthly" b);
      keep_within_yearly = as_text (get "keep_within_yearly" b);
    }

unfoldable pub assemble_notifications : ResolvedValues → NotificationsConfig
assemble_notifications r =
    let b = bucket "notifications" r in
    record {
      notify_on_success = truth (get "notify_on_success" b);
      notify_on_error = truth (get "notify_on_error" b);
      notify_on_skipped = truth (get "notify_on_skipped" b);
    }

unfoldable pub assemble_timeouts : ResolvedValues → TimeoutsConfig
assemble_timeouts r =
    let b = bucket "timeouts" r in
    record {
      backup_timeout = as_number (get "backup_timeout" b);
      rclone_timeout = as_number (get "rclone_timeout" b);
      hook_timeout = as_number (get "hook_timeout" b);
    }

unfoldable pub assemble_restic_options : ResolvedValues → ResticOptions
assemble_restic_options r =
    let b = bucket "backend_options" r in
    record {
      exclude_caches = as_flag (get "exclude_caches" b);
      one_file_system = as_flag (get "one_file_system" b);
      extra_backup_args = as_texts (get "extra_backup_args" b);
      extra_forget_args = as_texts (get "extra_forget_args" b);
      extra_prune_args = as_texts (get "extra_prune_args" b);
    }

unfoldable pub assemble_rclone_options : ResolvedValues → RcloneOptions
assemble_rclone_options r =
    let b = bucket "rclone_options" r in
    record {
      transfers = as_number (get "transfers" b);
      checkers = as_number (get "checkers" b);
      bwlimit = as_text (get "bwlimit" b);
      extra_args = as_texts (get "extra_args" b);
    }

unfoldable pub assemble_hooks : RawValues → HooksConfig
assemble_hooks raw = record {
  pre_hooks = as_texts (get "pre_hooks" raw);
  post_hooks = as_texts (get "post_hooks" raw);
  on_error_hooks = as_texts (get "on_error_hooks" raw);
}

-- `list(value) if value is not None else []`
abbrev pub or_empty : Option (List String) → List String
or_empty none = []
or_empty (some xs) = xs

-- The values of the levels above a task.
unfoldable pub job_level : RawApp → RawJob → ResolvedValues
unfolding resolve_level raw_values parent_raw_values
job_level g j =
    resolve_level job (raw_values j.attributes job)
      ((global, parent_raw_values g.attributes job global) ∷ [])

unfoldable pub job_backup_level : RawApp → RawJob → ResolvedValues
unfolding resolve_level raw_values parent_raw_values
job_backup_level g j =
    resolve_level job_backup (raw_values j.backup_attributes job_backup)
      ((global_backup, parent_raw_values g.backup_attributes job_backup global_backup) ∷ [])

unfoldable pub job_rclone_level : RawApp → RawJob → ResolvedValues
unfolding resolve_level raw_values parent_raw_values
job_rclone_level g j =
    resolve_level job_rclone (raw_values j.rclone_attributes job_rclone)
      ((global_rclone, parent_raw_values g.rclone_attributes job_rclone global_rclone) ∷ [])

unfoldable pub backup_level : RawApp → RawJob → RawBackup → ResolvedValues
unfolding resolve_level raw_values job_level job_backup_level flatten
backup_level g j b =
    resolve_level backup (raw_values b.attributes backup)
      ((job, flatten (job_level g j)) ∷ (job_backup, flatten (job_backup_level g j)) ∷ [])

unfoldable pub workflow_level : RawApp → RawJob → RawWorkflow → ResolvedValues
unfolding resolve_level raw_values job_level flatten
workflow_level g j w =
    resolve_level workflow (raw_values w.attributes workflow) ((job, flatten (job_level g j)) ∷ [])

unfoldable pub rclone_level : RawApp → RawJob → RawRclone → ResolvedValues
unfolding resolve_level raw_values job_level job_rclone_level flatten
rclone_level g j r =
    resolve_level rclone (raw_values r.attributes rclone)
      ((job, flatten (job_level g j)) ∷ (job_rclone, flatten (job_rclone_level g j)) ∷ [])

unfoldable pub resolve_backup : Dict String → RawApp → RawJob → RawBackup → BackupConfig
unfolding backup_level raw_values assemble_credentials assemble_filters assemble_retention
    assemble_execution assemble_hooks assemble_notifications assemble_timeouts
    assemble_restic_options
resolve_backup environ g j b =
    let r = backup_level g j b in
    record {
      repository = b.repository;
      schedule = b.schedule;
      tags = b.tags;
      credentials = assemble_credentials environ r;
      input = record { sources = or_empty b.sources; source_files = or_empty b.source_files };
      filters = assemble_filters r;
      retention = assemble_retention r;
      execution = assemble_execution r;
      hooks = assemble_hooks (raw_values b.attributes backup);
      notifications = assemble_notifications r;
      timeouts = assemble_timeouts r;
      restic = assemble_restic_options r;
    }

unfoldable pub resolve_workflow : RawApp → RawJob → RawWorkflow → WorkflowConfig
unfolding workflow_level raw_values assemble_hooks assemble_notifications assemble_timeouts
resolve_workflow g j w =
    let r = workflow_level g j w in
    record {
      schedule = w.schedule;
      steps = w.steps;
      hooks = assemble_hooks (raw_values w.attributes workflow);
      notifications = assemble_notifications r;
      timeouts = assemble_timeouts r;
    }

unfoldable pub resolve_rclone : RawApp → RawJob → RawRclone → RcloneTaskConfig
unfolding rclone_level raw_values assemble_rclone_options assemble_hooks assemble_notifications
    assemble_timeouts
resolve_rclone g j t =
    let r = rclone_level g j t in
    let options = bucket "rclone_options" r in
    record {
      source = t.source;
      target = t.target;
      sync_delete = as_flag (get "sync_delete" options);
      exclude = as_texts (get "exclude" options);
      filter_from = as_text (get "filter_from" options);
      schedule = t.schedule;
      hooks = assemble_hooks (raw_values t.attributes rclone);
      options = assemble_rclone_options r;
      notifications = assemble_notifications r;
      timeouts = assemble_timeouts r;
    }

abbrev pub map_values {ℓ κ} : {A : Type ℓ} {B : Type κ} → (A → B) → Dict A → Dict B
map_values f [] = []
map_values f ((k, v) ∷ d) = (k, f v) ∷ map_values f d

-- `_assemble_backend` raises ValueError for another backend: `none`.
abbrev pub cons_entry {ℓ} : {A : Type ℓ} → String → A → Option (Dict A) → Option (Dict A)
cons_entry k v none = none
cons_entry k v (some d) = some ((k, v) ∷ d)

unfoldable pub resolve_backups :
    Dict String → RawApp → RawJob → Dict RawBackup → Option (Dict BackupConfig)
unfolding resolve_backup
resolve_backups environ g j [] = some []
resolve_backups environ g j ((name, b) ∷ bs) =
    let rest = resolve_backups environ g j bs in
    if b.backend == "restic" then cons_entry name (resolve_backup environ g j b) rest else none

unfoldable pub job_with : RawApp → RawJob → Option (Dict BackupConfig) → Option JobConfig
unfolding job_level raw_values resolve_workflow resolve_rclone assemble_hooks assemble_notifications
    assemble_timeouts
job_with g j none = none
job_with g j (some backups) =
    let r = job_level g j in
    some (record {
      backup = backups;
      rclone = map_values (resolve_rclone g j) j.rclones;
      workflows = map_values (resolve_workflow g j) j.workflows;
      hooks = assemble_hooks (raw_values j.attributes job);
      notifications = assemble_notifications r;
      timeouts = assemble_timeouts r;
    })

unfoldable pub resolve_job : Dict String → RawApp → RawJob → Option JobConfig
unfolding resolve_backups job_with
resolve_job environ g j = job_with g j (resolve_backups environ g j j.backups)

abbrev pub cons_job : String → Option JobConfig → Option (Dict JobConfig) → Option (Dict JobConfig)
cons_job name none rest = none
cons_job name (some j) rest = cons_entry name j rest

unfoldable pub resolve_jobs : Dict String → RawApp → Dict RawJob → Option (Dict JobConfig)
unfolding resolve_job
resolve_jobs environ g [] = some []
resolve_jobs environ g ((name, j) ∷ js) =
    cons_job name (resolve_job environ g j) (resolve_jobs environ g js)

abbrev pub app_with : GlobalConfig → Option (Dict JobConfig) → Option AppConfig
app_with g none = none
app_with g (some jobs) = some (record { global_ = g; jobs = jobs })

unfoldable pub resolve_config : Dict String → RawApp → Option AppConfig
unfolding resolve_jobs
resolve_config environ g =
    app_with
      (record {
        log_level = g.log_level;
        log_retention_days = g.log_retention_days;
        lock_retry_count = g.lock_retry_count;
        lock_retry_delay = g.lock_retry_delay;
        notifications = g.notifications;
      })
      (resolve_jobs environ g g.jobs)
