-- ===== src/Resolver/Fields.antt =====
-- models/config_fields.py: the table of the fields with their inheritance. What the table says for the
-- editor is left out.
use dockkeep.Prelude.{
  ℕ, String, Bool, false, Option, none, some, List, [], ◌∷◌, ◌++◌, ◌=ℕ=◌, if◌then◌else◌,
}

pub data Level : Type 0 where
  global global_backup global_rclone global_notifications job job_backup job_rclone backup workflow
        rclone :
      Level

abbrev level_number : Level → ℕ
level_number global = 0
level_number global_backup = 1
level_number global_rclone = 2
level_number global_notifications = 3
level_number job = 4
level_number job_backup = 5
level_number job_rclone = 6
level_number backup = 7
level_number workflow = 8
level_number rclone = 9

abbrev pub same_level : Level → Level → Bool
same_level a b = level_number a =ℕ= level_number b

pub data InheritanceKind : Type 0 where
  not_inherited scalar_override list_override password_choice : InheritanceKind

-- A value of a field that is set.
pub data Value : Type 0 where
  flag : Bool → Value
  number : ℕ → Value
  text : String → Value
  texts : List String → Value

pub record ConfigField : Type 0 where
  pub key : String
  pub resolved_key : String
  pub level : Level
  pub parent_level : Option Level
  pub inheritance : InheritanceKind
  pub default : Option Value
  pub capability : String

abbrev list_field : String → String → String → Level × Level → ConfigField
list_field capability key resolved_key (level, parent_level) = record {
  key = key;
  resolved_key = resolved_key;
  level = level;
  parent_level = some parent_level;
  inheritance = list_override;
  default = some (texts []);
  capability = capability;
}

abbrev scalar_field : String → Option Value → String → Level × Level → ConfigField
scalar_field capability default key (level, parent_level) = record {
  key = key;
  resolved_key = key;
  level = level;
  parent_level = some parent_level;
  inheritance = scalar_override;
  default = default;
  capability = capability;
}

-- A field of one level only.
abbrev own_field : String → Option Value → Level → String → ConfigField
own_field capability default level key = record {
  key = key;
  resolved_key = key;
  level = level;
  parent_level = none;
  inheritance = not_inherited;
  default = default;
  capability = capability;
}

abbrev each {ℓ} : {A : Type ℓ} → (A → ConfigField) → List A → List ConfigField
each f [] = []
each f (x ∷ xs) = f x ∷ each f xs

abbrev concat : List (List ConfigField) → List ConfigField
concat [] = []
concat (xs ∷ xss) = xs ++ concat xss

abbrev product {ℓ κ} :
    {A : Type ℓ} {B : Type κ} → (A → B → ConfigField) → List A → List B → List ConfigField
product f [] ys = []
product f (x ∷ xs) ys = each (f x) ys ++ product f xs ys

abbrev job_to_backup_levels : List (Level × Level)
job_to_backup_levels = (job_backup, global_backup) ∷ (backup, job_backup) ∷ []

abbrev rclone_job_to_task_levels : List (Level × Level)
rclone_job_to_task_levels = (job_rclone, global_rclone) ∷ (rclone, job_rclone) ∷ []

abbrev notification_levels : List (Level × Level)
notification_levels = (job, global) ∷ (backup, job) ∷ (workflow, job) ∷ (rclone, job) ∷ []

abbrev notify_trigger_names : List String
notify_trigger_names = "notify_on_success" ∷ "notify_on_error" ∷ "notify_on_skipped" ∷ []

abbrev global_fields : List ConfigField
global_fields =
    own_field "logging" (some (text "debug")) global "log_level"
    ∷ own_field "logging" none global "log_retention_days"
    ∷ each (own_field "notifications" (some (flag false)) global) notify_trigger_names

abbrev password_field : Level × Level → String → ConfigField
password_field (level, parent_level) key = record {
  key = key;
  resolved_key = key;
  level = level;
  parent_level = some parent_level;
  inheritance = password_choice;
  default = none;
  capability = "credentials";
}

abbrev password_choice_fields : Level × Level → List ConfigField
password_choice_fields levels =
    each (password_field levels) ("password" ∷ "password_env" ∷ "password_file" ∷ [])

abbrev credential_fields : List ConfigField
credential_fields =
    password_choice_fields (job_backup, global_backup)
    ++ password_choice_fields (backup, job_backup)

abbrev backend_fields : List ConfigField
backend_fields = own_field "backend" (some (text "restic")) backup "backend" ∷ []

abbrev execution_fields : List ConfigField
execution_fields =
    product (scalar_field "execution" (some (flag false)))
      ("retention" ∷ "cleanup" ∷ "auto_init" ∷ []) job_to_backup_levels

abbrev restic_bool_option_fields : List ConfigField
restic_bool_option_fields =
    product (scalar_field "backend_options" none) ("exclude_caches" ∷ "one_file_system" ∷ [])
      job_to_backup_levels

abbrev retention_scalar_names : List String
retention_scalar_names =
    "keep_last" ∷ "keep_hourly" ∷ "keep_daily" ∷ "keep_weekly" ∷ "keep_monthly" ∷ "keep_yearly"
    ∷ "keep_within" ∷ "keep_within_hourly" ∷ "keep_within_daily" ∷ "keep_within_weekly"
    ∷ "keep_within_monthly" ∷ "keep_within_yearly" ∷ []

abbrev retention_fields : List ConfigField
retention_fields =
    product (scalar_field "retention" none) retention_scalar_names job_to_backup_levels

abbrev filter_fields : List ConfigField
filter_fields =
    each (list_field "filters" "exclude" "exclude") job_to_backup_levels
    ++ each (list_field "filters" "exclude_files" "exclude_files") job_to_backup_levels

abbrev restic_extra_args_fields : List ConfigField
restic_extra_args_fields =
    each (list_field "backend_options" "extra_restic_backup_args" "extra_backup_args")
      job_to_backup_levels
    ++ (each (list_field "backend_options" "extra_restic_forget_args" "extra_forget_args")
          job_to_backup_levels
        ++ each (list_field "backend_options" "extra_restic_prune_args" "extra_prune_args")
            job_to_backup_levels)

abbrev timeout_fields : List ConfigField
timeout_fields =
    each (scalar_field "timeouts" none "backup_timeout") job_to_backup_levels
    ++ (each (scalar_field "timeouts" none "rclone_timeout") rclone_job_to_task_levels
        ++ each (scalar_field "timeouts" none "hook_timeout") notification_levels)

abbrev notification_fields : List ConfigField
notification_fields =
    product (scalar_field "notifications" (some (flag false))) notify_trigger_names
      notification_levels

abbrev rclone_option_fields : List ConfigField
rclone_option_fields =
    product (scalar_field "rclone_options" none) ("transfers" ∷ "checkers" ∷ "bwlimit" ∷ [])
      rclone_job_to_task_levels
    ++ (each (scalar_field "rclone_options" (some (flag false)) "sync_delete")
          rclone_job_to_task_levels
        ++ each (scalar_field "rclone_options" none "filter_from") rclone_job_to_task_levels)

abbrev rclone_list_option_fields : List ConfigField
rclone_list_option_fields =
    each (list_field "rclone_options" "exclude" "exclude") rclone_job_to_task_levels
    ++ each (list_field "rclone_options" "extra_rclone_args" "extra_args") rclone_job_to_task_levels

abbrev input_fields : List ConfigField
input_fields = each (own_field "input" (some (texts [])) backup) ("sources" ∷ "source_files" ∷ [])

abbrev hook_fields : List ConfigField
hook_fields =
    product (own_field "hooks" (some (texts []))) (job ∷ backup ∷ rclone ∷ workflow ∷ [])
      ("pre_hooks" ∷ "post_hooks" ∷ "on_error_hooks" ∷ [])

abbrev backup_own_fields : List ConfigField
backup_own_fields =
    own_field "repository" none backup "repository"
    ∷ own_field "repository" none backup "schedule"
    ∷ own_field "metadata" (some (texts [])) backup "tags"
    ∷ []

abbrev workflow_own_fields : List ConfigField
workflow_own_fields =
    own_field "workflow" none workflow "schedule"
    ∷ own_field "workflow" (some (texts [])) workflow "steps"
    ∷ []

abbrev rclone_own_fields : List ConfigField
rclone_own_fields =
    each (own_field "rclone_task" none rclone) ("source" ∷ "target" ∷ "schedule" ∷ [])

abbrev notification_provider_fields : List ConfigField
notification_provider_fields =
    each (own_field "notification_providers" none global_notifications) ("mail" ∷ "pushover" ∷ [])

unfoldable pub config_fields : List ConfigField
config_fields = concat (
    global_fields ∷ credential_fields ∷ backend_fields ∷ execution_fields
    ∷ restic_bool_option_fields ∷ retention_fields ∷ filter_fields ∷ restic_extra_args_fields
    ∷ timeout_fields ∷ notification_fields ∷ rclone_option_fields ∷ rclone_list_option_fields
    ∷ input_fields ∷ hook_fields ∷ backup_own_fields ∷ workflow_own_fields ∷ rclone_own_fields
    ∷ notification_provider_fields ∷ [])

abbrev pub at_level : Level → List ConfigField → List ConfigField
at_level level [] = []
at_level level (f ∷ fs) =
    let rest = at_level level fs in if same_level f.level level then f ∷ rest else rest

unfoldable pub fields_for_level : Level → List ConfigField
unfolding config_fields
fields_for_level level = at_level level config_fields
