-- ===== src/Resolver/Nearest.antt =====
-- What the inheritance of models/resolve.py comes to: the value of the nearest level that sets it.
use Prim.Native.String.{String}
use dockkeep.Resolver.Choice.{choice, credentials_of, backup_level-choice}
use dockkeep.Prelude.{◌≡◌, ◌∙◌, refl, ap, false, Option, none, some, List, [], ◌∷◌}
use dockkeep.Prelude.Dict.{Dict, lookup, insert}
use dockkeep.Config.{BackupConfig, WorkflowConfig, RcloneTaskConfig, Credentials}
use dockkeep.Resolver.Fields.{Value, flag, texts, config_fields, fields_for_level}
use dockkeep.Resolver.Levels.{
  Attributes, inherit, resolve_field, resolve_fields, settle, any_set, resolve_level, raw_values,
  parent_raw_values, flatten,
}
use dockkeep.Resolver.Assemble.{
  RawApp, RawJob, RawBackup, RawWorkflow, RawRclone, truth, as_flag, as_number, as_text, as_texts,
  or_empty, assemble_execution, assemble_credentials, assemble_filters, assemble_retention,
  assemble_notifications, assemble_timeouts, assemble_restic_options, assemble_rclone_options,
  assemble_hooks, job_level, job_backup_level, job_rclone_level, backup_level, workflow_level,
  rclone_level, resolve_backup, resolve_workflow, resolve_rclone,
}

-- The first value that is set.
abbrev pub first_set : List (Option Value) → Option Value → Option Value
first_set [] default = default
first_set (some v ∷ xs) default = some v
first_set (none ∷ xs) default = first_set xs default

-- A rule that combines the values of a task, its job and the global level.
abbrev Rule : Type 0
Rule = Option Value → Option Value → Option Value → Option Value → Option Value

abbrev pub nearest : Rule
nearest task job global default = first_set (task ∷ job ∷ global ∷ []) default

abbrev stepwise : Rule
stepwise task job global default = inherit task (inherit job global default) default

stepwise-nearest : (t j g d : Option Value) → stepwise t j g d ≡ nearest t j g d
unfolding inherit
stepwise-nearest (some v) j g d = refl
stepwise-nearest none (some v) g d = refl
stepwise-nearest none none (some v) d = refl
stepwise-nearest none none none none = refl
stepwise-nearest none none none (some v) = refl

-- The two rules are one.
same_rule : ◌≡◌ {A = Rule} stepwise nearest
same_rule = λ i t j g d. stepwise-nearest t j g d i

-- The value of a key by a rule, from the attributes of a task, its job and the global level.
abbrev by_levels :
    Rule → Attributes → Attributes → Attributes → Option Value → String → Option Value
by_levels rule task job global default key = rule (task key) (job key) (global key) default

-- A backup by a rule; its credentials are given.
abbrev pub backup_by : Rule → RawApp → RawJob → RawBackup → Credentials → BackupConfig
backup_by rule g j b credentials =
    let own = by_levels rule b.attributes j.backup_attributes g.backup_attributes in
    let shared = by_levels rule b.attributes j.attributes g.attributes in
    record {
      repository = b.repository;
      schedule = b.schedule;
      tags = b.tags;
      credentials = credentials;
      input = record { sources = or_empty b.sources; source_files = or_empty b.source_files };
      filters = record {
        exclude = as_texts (own (some (texts [])) "exclude");
        exclude_files = as_texts (own (some (texts [])) "exclude_files");
      };
      retention = record {
        keep_last = as_number (own none "keep_last");
        keep_hourly = as_number (own none "keep_hourly");
        keep_daily = as_number (own none "keep_daily");
        keep_weekly = as_number (own none "keep_weekly");
        keep_monthly = as_number (own none "keep_monthly");
        keep_yearly = as_number (own none "keep_yearly");
        keep_within = as_text (own none "keep_within");
        keep_within_hourly = as_text (own none "keep_within_hourly");
        keep_within_daily = as_text (own none "keep_within_daily");
        keep_within_weekly = as_text (own none "keep_within_weekly");
        keep_within_monthly = as_text (own none "keep_within_monthly");
        keep_within_yearly = as_text (own none "keep_within_yearly");
      };
      execution = record {
        retention = truth (own (some (flag false)) "retention");
        cleanup = truth (own (some (flag false)) "cleanup");
        auto_init = truth (own (some (flag false)) "auto_init");
      };
      hooks = record {
        pre_hooks = as_texts (b.attributes "pre_hooks");
        post_hooks = as_texts (b.attributes "post_hooks");
        on_error_hooks = as_texts (b.attributes "on_error_hooks");
      };
      notifications = record {
        notify_on_success = truth (shared (some (flag false)) "notify_on_success");
        notify_on_error = truth (shared (some (flag false)) "notify_on_error");
        notify_on_skipped = truth (shared (some (flag false)) "notify_on_skipped");
      };
      timeouts = record {
        backup_timeout = as_number (own none "backup_timeout");
        rclone_timeout = none;
        hook_timeout = as_number (shared none "hook_timeout");
      };
      restic = record {
        exclude_caches = as_flag (own none "exclude_caches");
        one_file_system = as_flag (own none "one_file_system");
        extra_backup_args = as_texts (own (some (texts [])) "extra_restic_backup_args");
        extra_forget_args = as_texts (own (some (texts [])) "extra_restic_forget_args");
        extra_prune_args = as_texts (own (some (texts [])) "extra_restic_prune_args");
      };
    }

-- A workflow and an rclone task by a rule.
abbrev pub workflow_by : Rule → RawApp → RawJob → RawWorkflow → WorkflowConfig
workflow_by rule g j w =
    let shared = by_levels rule w.attributes j.attributes g.attributes in
    record {
      schedule = w.schedule;
      steps = w.steps;
      hooks = record {
        pre_hooks = as_texts (w.attributes "pre_hooks");
        post_hooks = as_texts (w.attributes "post_hooks");
        on_error_hooks = as_texts (w.attributes "on_error_hooks");
      };
      notifications = record {
        notify_on_success = truth (shared (some (flag false)) "notify_on_success");
        notify_on_error = truth (shared (some (flag false)) "notify_on_error");
        notify_on_skipped = truth (shared (some (flag false)) "notify_on_skipped");
      };
      timeouts = record {
        backup_timeout = none;
        rclone_timeout = none;
        hook_timeout = as_number (shared none "hook_timeout");
      };
    }

abbrev pub rclone_by : Rule → RawApp → RawJob → RawRclone → RcloneTaskConfig
rclone_by rule g j t =
    let own = by_levels rule t.attributes j.rclone_attributes g.rclone_attributes in
    let shared = by_levels rule t.attributes j.attributes g.attributes in
    record {
      source = t.source;
      target = t.target;
      sync_delete = as_flag (own (some (flag false)) "sync_delete");
      exclude = as_texts (own (some (texts [])) "exclude");
      filter_from = as_text (own none "filter_from");
      schedule = t.schedule;
      hooks = record {
        pre_hooks = as_texts (t.attributes "pre_hooks");
        post_hooks = as_texts (t.attributes "post_hooks");
        on_error_hooks = as_texts (t.attributes "on_error_hooks");
      };
      options = record {
        transfers = as_number (own none "transfers");
        checkers = as_number (own none "checkers");
        bwlimit = as_text (own none "bwlimit");
        extra_args = as_texts (own (some (texts [])) "extra_rclone_args");
      };
      notifications = record {
        notify_on_success = truth (shared (some (flag false)) "notify_on_success");
        notify_on_error = truth (shared (some (flag false)) "notify_on_error");
        notify_on_skipped = truth (shared (some (flag false)) "notify_on_skipped");
      };
      timeouts = record {
        backup_timeout = none;
        rclone_timeout = as_number (own none "rclone_timeout");
        hook_timeout = as_number (shared none "hook_timeout");
      };
    }

-- The fields of a resolved backup are the values of the nearest of the backup, its job and the global
-- level that sets the field, or the default, but for two groups: the credentials are those of the
-- nearest level that sets any of the three, and the repository, the schedule, the tags, the sources and
-- the hooks are the backup's own.
pub resolve_backup-nearest :
    (environ : Dict String) (g : RawApp) (j : RawJob) (b : RawBackup)
    → resolve_backup environ g j b
      ≡ backup_by nearest g j b
          (credentials_of environ (choice b.attributes j.backup_attributes g.backup_attributes))
unfolding resolve_backup assemble_execution assemble_filters assemble_retention
    assemble_notifications assemble_timeouts assemble_restic_options assemble_hooks backup_level
    job_level job_backup_level resolve_level settle resolve_fields resolve_field raw_values
    parent_raw_values flatten fields_for_level config_fields any_set lookup insert
resolve_backup-nearest environ g j b =
    ap (λ rule. backup_by rule g j b (assemble_credentials environ (backup_level g j b))) same_rule
    ∙ ap (backup_by nearest g j b) (backup_level-choice environ g j b)

-- The notifications and the hook timeout of a resolved workflow are those of the nearest of the
-- workflow, its job and the global level that sets them, or the default; the rest is its own.
pub resolve_workflow-nearest :
    (g : RawApp) (j : RawJob) (w : RawWorkflow) → resolve_workflow g j w ≡ workflow_by nearest g j w
unfolding resolve_workflow assemble_notifications assemble_timeouts assemble_hooks workflow_level
    job_level resolve_level settle resolve_fields resolve_field raw_values parent_raw_values flatten
    fields_for_level config_fields any_set lookup insert
resolve_workflow-nearest g j w = ap (λ rule. workflow_by rule g j w) same_rule

-- The options, the timeouts, the notifications, the deletion and the filters of a resolved rclone task
-- are the values of the nearest of the task, its job and the global level that sets the field, or the
-- default; its source, target, schedule and hooks are its own.
pub resolve_rclone-nearest :
    (g : RawApp) (j : RawJob) (t : RawRclone) → resolve_rclone g j t ≡ rclone_by nearest g j t
unfolding resolve_rclone assemble_rclone_options assemble_notifications assemble_timeouts
    assemble_hooks rclone_level job_level job_rclone_level resolve_level settle resolve_fields
    resolve_field raw_values parent_raw_values flatten fields_for_level config_fields any_set lookup
    insert
resolve_rclone-nearest g j t = ap (λ rule. rclone_by rule g j t) same_rule
