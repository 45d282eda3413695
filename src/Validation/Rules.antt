-- ===== src/Validation/Rules.antt =====
-- `validate_resolved_config`, and of `validate_raw_config` the workflow steps.
use dockkeep.Prelude.{
  ℕ, zero, suc, String, Bool, true, false, not, ◌&&◌, ◌||◌, Option, none, some, List, [], ◌∷◌, ◌==◌,
  if◌then◌else◌, split_on,
}
use dockkeep.Prelude.Dict.{Dict, lookup}
use dockkeep.Config.{
  RetentionConfig, BackupConfig, WorkflowConfig, JobConfig, GlobalConfig, AppConfig,
}
use dockkeep.Resolver.Assemble.{RawJob, RawWorkflow}

-- The ValueErrors, with the names that their texts give; `no_name` is an IndexError.
pub data ConfigError : Type 0 where
  no_retry_delay : ConfigError
  no_keep_policy missing_password_file : String → String → ConfigError
  no_workflow_policy : String → String → String → ConfigError
  unknown_rclone unknown_backup : String → String → String → ConfigError
  no_name : ConfigError

-- The error that is raised, if there is one.
abbrev pub Check : Type 0
Check = Option ConfigError

-- One check after the other.
abbrev pub then_check : Check → Check → Check
then_check none next = next
then_check (some e) next = some e

-- A loop over the items of a dictionary, and over a list.
unfoldable pub check_each {ℓ} : {A : Type ℓ} → (String → A → Check) → Dict A → Check
check_each check [] = none
check_each check ((name, a) ∷ d) = then_check (check name a) (check_each check d)

unfoldable pub check_all : (String → Check) → List String → Check
check_all check [] = none
check_all check (x ∷ xs) = then_check (check x) (check_all check xs)

abbrev pub is_set {ℓ} : {A : Type ℓ} → Option A → Bool
is_set none = false
is_set (some a) = true

abbrev needs_delay : Option ℕ → Bool
needs_delay none = false
needs_delay (some zero) = false
needs_delay (some (suc n)) = true

unfoldable pub validate_lock_retry : GlobalConfig → Check
validate_lock_retry g =
    if needs_delay g.lock_retry_count && not (is_set g.lock_retry_delay)
    then some no_retry_delay
    else none

unfoldable pub has_keep_policy : RetentionConfig → Bool
has_keep_policy r =
    is_set r.keep_last
    || (is_set r.keep_hourly
        || (is_set r.keep_daily
            || (is_set r.keep_weekly
                || (is_set r.keep_monthly
                    || (is_set r.keep_yearly
                        || (is_set r.keep_within
                            || (is_set r.keep_within_hourly
                                || (is_set r.keep_within_daily
                                    || (is_set r.keep_within_weekly
                                        || (is_set r.keep_within_monthly
                                            || is_set r.keep_within_yearly))))))))))

abbrev file_there : (String → Bool) → Option String → Bool
file_there is_file none = true
file_there is_file (some path) = is_file path

unfoldable pub validate_backup : (String → Bool) → String → String → BackupConfig → Check
unfolding has_keep_policy
validate_backup is_file job_name backup_name b =
    then_check
      (if b.execution.retention && not (has_keep_policy b.retention)
        then some (no_keep_policy job_name backup_name)
        else none)
      (if file_there is_file b.credentials.password_file
        then none
        else some (missing_password_file job_name backup_name))

unfoldable pub validate_backups : (String → Bool) → String → Dict BackupConfig → Check
unfolding validate_backup check_each
validate_backups is_file job_name bs = check_each (validate_backup is_file job_name) bs

-- `job.backup.get(backup_name)`
unfoldable pub policy_of : ConfigError → Option BackupConfig → Check
unfolding has_keep_policy
policy_of e none = none
policy_of e (some b) = if has_keep_policy b.retention then none else some e

-- A step that is not of the form backup.<name>.retention is passed over.
unfoldable pub validate_retention_step : Dict BackupConfig → ConfigError → List String → Check
unfolding policy_of
validate_retention_step backups e (kind ∷ name ∷ sub ∷ []) =
    if kind == "backup" && sub == "retention" then policy_of e (lookup name backups) else none
validate_retention_step backups e _ = none

unfoldable pub validate_retention_steps :
    Dict BackupConfig → String → String → WorkflowConfig → Check
unfolding validate_retention_step check_all
validate_retention_steps backups job_name workflow_name w =
    check_all
      (λ step.
        validate_retention_step backups (no_workflow_policy job_name workflow_name step)
          (split_on "." step))
      w.steps

unfoldable pub validate_workflow_retention :
    Dict BackupConfig → String → Dict WorkflowConfig → Check
unfolding validate_retention_steps check_each
validate_workflow_retention backups job_name ws =
    check_each (validate_retention_steps backups job_name) ws

unfoldable pub validate_job : (String → Bool) → String → JobConfig → Check
unfolding validate_backups validate_workflow_retention
validate_job is_file name j =
    then_check (validate_backups is_file name j.backup)
      (validate_workflow_retention j.backup name j.workflows)

unfoldable pub validate_jobs : (String → Bool) → Dict JobConfig → Check
unfolding validate_job check_each
validate_jobs is_file js = check_each (validate_job is_file) js

unfoldable pub validate_resolved_config : (String → Bool) → AppConfig → Check
unfolding validate_lock_retry validate_jobs
validate_resolved_config is_file c =
    then_check (validate_lock_retry c.global_) (validate_jobs is_file c.jobs)

-- `_validate_workflow_steps`
unfoldable pub validate_step : RawJob → String → String → String → List String → Check
validate_step j job_name workflow_name step (kind ∷ name ∷ rest) =
    if kind == "rclone"
    then (if is_set (lookup name j.rclones)
        then none
        else some (unknown_rclone job_name workflow_name step))
    else (if is_set (lookup name j.backups)
        then none
        else some (unknown_backup job_name workflow_name step))
validate_step j job_name workflow_name step _ = some no_name

unfoldable pub validate_steps : RawJob → String → String → RawWorkflow → Check
unfolding validate_step check_all
validate_steps j job_name workflow_name w =
    check_all (λ step. validate_step j job_name workflow_name step (split_on "." step)) w.steps

unfoldable pub validate_workflow_steps : RawJob → String → Dict RawWorkflow → Check
unfolding validate_steps check_each
validate_workflow_steps j job_name ws = check_each (validate_steps j job_name) ws
