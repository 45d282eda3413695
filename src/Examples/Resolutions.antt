-- ===== src/Examples/Resolutions.antt =====
-- A configuration with one job: the backup keeps seven days by its own setting, the job sets the
-- password, and the global level asks for messages on errors.
use dockkeep.Prelude.{split_on, ◌≡◌, refl, String, none, some, true, [], ◌∷◌, ◌==◌, if◌then◌else◌}
use dockkeep.Prelude.Dict.{lookup, insert}
use dockkeep.Config.{AppConfig, JobConfig, ProvidersConfig}
use dockkeep.Examples.{no_hooks, no_timeouts, on_error}
use dockkeep.Resolver.Fields.{Value, flag, number, text}
use dockkeep.Resolver.Levels.{Attributes}
use dockkeep.Resolver.Assemble.{
  RawApp, RawJob, RawBackup, RawWorkflow, RawRclone, assemble_credentials, backup_level,
  resolve_backup, resolve_workflow, resolve_rclone, resolve_config, resolve_jobs, resolve_job,
  resolve_backups, job_with,
}
use dockkeep.Resolver.Nearest.{
  nearest, backup_by, workflow_by, rclone_by, resolve_backup-nearest, resolve_workflow-nearest,
  resolve_rclone-nearest,
}
use dockkeep.Resolver.Choice.{choice, credentials_of, backup_level-choice}
use dockkeep.Resolver.Names.{JobMatches, Matches, resolve_config-Matches}
use dockkeep.Runner.Run.{workflow_resources}
use dockkeep.Runner.Steps.{lock_task_of}
use dockkeep.Validation.Rules.{
  is_set, check_each, check_all, validate_step, validate_steps, validate_workflow_steps,
}
use dockkeep.Validation.Steps.{workflow_resources-validated}

abbrev one : String → Value → Attributes
one name v = λ key. if key == name then some v else none

abbrev nothing : Attributes
nothing = λ key. none

abbrev raw_files : RawBackup
raw_files = record {
  repository = "/backups/files";
  backend = "restic";
  schedule = none;
  tags = [];
  sources = some ("/data" ∷ []);
  source_files = none;
  attributes = one "keep_daily" (number 7);
}

abbrev raw_mirror : RawRclone
raw_mirror = record {
  source = "/backups/files";
  target = "cloud:files";
  schedule = none;
  attributes = nothing;
}

abbrev raw_all : RawWorkflow
raw_all = record { schedule = none; steps = "backup.files" ∷ []; attributes = nothing }

abbrev raw_job : RawJob
raw_job = record {
  attributes = nothing;
  backup_attributes = one "password" (text "secret");
  rclone_attributes = nothing;
  backups = ("files", raw_files) ∷ [];
  rclones = ("mirror", raw_mirror) ∷ [];
  workflows = ("all", raw_all) ∷ [];
}

abbrev no_provider : ProvidersConfig
no_provider = record { report_schedule = none; mail = none; pushover = none }

abbrev raw : RawApp
raw = record {
  log_level = "debug";
  log_retention_days = none;
  lock_retry_count = none;
  lock_retry_delay = none;
  notifications = no_provider;
  attributes = one "notify_on_error" (flag true);
  backup_attributes = nothing;
  rclone_attributes = nothing;
  jobs = ("home", raw_job) ∷ [];
}

abbrev resolved_home : JobConfig
resolved_home = record {
  backup = ("files", resolve_backup [] raw raw_job raw_files) ∷ [];
  rclone = ("mirror", resolve_rclone raw raw_job raw_mirror) ∷ [];
  workflows = ("all", resolve_workflow raw raw_job raw_all) ∷ [];
  hooks = no_hooks;
  notifications = on_error;
  timeouts = no_timeouts;
}

abbrev app : AppConfig
app = record {
  global_ = record {
    log_level = "debug";
    log_retention_days = none;
    lock_retry_count = none;
    lock_retry_delay = none;
    notifications = no_provider;
  };
  jobs = ("home", resolved_home) ∷ [];
}

resolve_backup-nearest_example :
    resolve_backup [] raw raw_job raw_files
    ≡ backup_by nearest raw raw_job raw_files (
        credentials_of []
          (choice raw_files.attributes raw_job.backup_attributes raw.backup_attributes))
resolve_backup-nearest_example = resolve_backup-nearest [] raw raw_job raw_files

resolve_workflow-nearest_example :
    resolve_workflow raw raw_job raw_all ≡ workflow_by nearest raw raw_job raw_all
resolve_workflow-nearest_example = resolve_workflow-nearest raw raw_job raw_all

resolve_rclone-nearest_example :
    resolve_rclone raw raw_job raw_mirror ≡ rclone_by nearest raw raw_job raw_mirror
resolve_rclone-nearest_example = resolve_rclone-nearest raw raw_job raw_mirror

backup_level-choice_example :
    assemble_credentials [] (backup_level raw raw_job raw_files)
    ≡ credentials_of []
        (choice raw_files.attributes raw_job.backup_attributes raw.backup_attributes)
backup_level-choice_example = backup_level-choice [] raw raw_job raw_files

resolve_config-Matches_example : Matches [] raw (lookup "home" raw.jobs) (lookup "home" app.jobs)
unfolding resolve_config resolve_jobs resolve_job resolve_backups job_with lookup insert
resolve_config-Matches_example = resolve_config-Matches [] raw app refl "home"

home_resolved : JobMatches [] raw raw_job resolved_home
unfolding resolve_config resolve_jobs resolve_job resolve_backups job_with lookup insert
home_resolved = resolve_config-Matches [] raw app refl "home"

workflow_resources-validated_example :
    is_set (workflow_resources resolved_home (λ p. p) ("backup.files" ∷ [])) ≡ true
unfolding validate_workflow_steps validate_steps validate_step check_each check_all lookup insert
    split_on lock_task_of resolve_workflow
workflow_resources-validated_example =
    workflow_resources-validated [] raw raw_job resolved_home (λ p. p) "home" "all"
      (resolve_workflow raw raw_job raw_all) home_resolved refl refl (("files", refl), tt)
