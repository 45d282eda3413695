-- ===== src/Engine.antt =====
-- core/workflow.py: the steps of a backup, an rclone task and a workflow, with their hooks.
pub mod Frame
use dockkeep.Prelude.{
  ℕ, String, Bool, true, false, not, ◌&&◌, Option, none, some, List, [], ◌∷◌, ◌++◌, ◌==◌, ◌<>◌,
  if◌then◌else◌, split_on,
}
use dockkeep.Prelude.Dict
use dockkeep.Prelude.Dict.{Dict}
use dockkeep.Config.{
  HooksConfig, TimeoutsConfig, BackupConfig, RcloneTaskConfig, WorkflowConfig, JobConfig,
}
use dockkeep.Effects.{
  Outside, Exn, cancelled, job_running, value_error, failure, unexpected, Outcome, ok, raised,
  World, Summary, Json, M, pure, raise, attempt, ◌>>=◌, ◌>>◌, unless,
}
use dockkeep.Executors.Hooks
use dockkeep.Executors.Backup
use dockkeep.Executors.Rclone

-- The callbacks around a tracked step: the step's name gives its identifier; then the identifier,
-- the name, the success, the error and whether the step was cancelled.
pub record StepCallbacks : Type 0 where
  pub started : String → M (Option String)
  pub finished : Option String → String → Bool → Option String → Bool → M (Unit {0})

-- `str(exc)`
unfoldable pub exn_text : Exn → String
exn_text cancelled = ""
exn_text (job_running path) = path
exn_text (value_error e) = e
exn_text (failure e) = e
exn_text (unexpected e) = e

abbrev pub given : String → Option String → String
given d none = d
given d (some v) = v

-- A result of an executor, with the summary that a backup leaves.
abbrev pub StepResult : Type 0
StepResult = Bool × Option Summary

abbrev pub step_error : Bool → Option String
step_error true = none
step_error false = some "Step failed"

-- `setdefault(name, []).append(x)`
abbrev pub listed {ℓ} : {A : Type ℓ} → Option (List A) → List A
listed none = []
listed (some xs) = xs

abbrev pub append_at {ℓ} : {A : Type ℓ} → String → A → Dict (List A) → Dict (List A)
append_at name x d = Dict.insert name (listed (Dict.lookup name d) ++ x ∷ []) d

abbrev pub raw_of : Option Summary → Option (Dict Json)
raw_of none = none
raw_of (some s) = some s.raw

-- `_record_backup_artifact_candidate`
unfoldable pub record_artifact : String → Option Summary → M (Unit {0})
record_artifact name summary w =
    (ok tt, record w { artifacts = append_at name (raw_of summary) w.artifacts })

-- `consume_backup_artifact_candidate`: the oldest candidate, and the entry goes with the last one.
abbrev pub without_first :
    String
    → List (Option (Dict Json))
    → Dict (List (Option (Dict Json)))
    → Dict (List (Option (Dict Json)))
without_first name [] d = Dict.erase name d
without_first name (x ∷ xs) d = Dict.insert name (x ∷ xs) d

abbrev pub take_first :
    String → Option (List (Option (Dict Json))) → World → Option (Option (Dict Json)) × World
take_first name none w = (none, w)
take_first name (some []) w = (none, w)
take_first name (some (x ∷ xs)) w =
    (some x, record w { artifacts = without_first name xs w.artifacts })

unfoldable pub consume_artifact : String → M (Option (Option (Dict Json)))
consume_artifact name w =
    let (found, w') = take_first name (Dict.lookup name w.artifacts) w in (ok found, w')

-- Hooks around an operation: a pre hook or the operation that fails runs the error hooks; a post
-- hook that fails is only logged.
unfoldable pub with_hooks : (List String → M Bool) → HooksConfig → M Bool → M Bool
with_hooks run_hooks hooks operation = do
  pre ← run_hooks hooks.pre_hooks
  if pre
      then (do
        success ← operation
        if success
            then (run_hooks hooks.post_hooks >> pure true)
            else (run_hooks hooks.on_error_hooks >> pure false))
      else (run_hooks hooks.on_error_hooks >> pure false)

-- The `try` of `_run_tracked_step` around the operation.
unfoldable pub close_step :
    StepCallbacks → Option String → String → Outcome StepResult → M StepResult
close_step cb id step (ok (success, summary)) = do
  cb.finished id step success (step_error success) false
  pure (success, summary)
close_step cb id step (raised cancelled) = do
  cb.finished id step false (some "Step cancelled") true
  raise cancelled
close_step cb id step (raised e) = do cb.finished id step false (some (exn_text e)) false; raise e

unfoldable pub tracked_step : StepCallbacks → String → M StepResult → M StepResult
unfolding close_step
tracked_step cb step operation = do id ← cb.started step; attempt operation (close_step cb id step)

abbrev pub plain : M Bool → M StepResult
plain m = do success ← m; pure (success, none)

module _ (o : Outside) (cb : StepCallbacks) (job : JobConfig) (dry_run : Bool) where
  abbrev pub scripts_dir : String
  scripts_dir = o.expanduser (given "/scripts" (Dict.lookup "DK_SCRIPTS_DIR" o.environ))

  -- `_run_hooks`; a dry run skips them
  unfoldable pub run_hooks : Option ℕ → List String → M Bool
  run_hooks timeout hooks =
      if dry_run then pure true else Hooks.run_executor o scripts_dir timeout hooks

  -- `run_job_hooks` with `_run_with_job_hooks` of core/job_runner.py
  unfoldable pub run_with_job_hooks : M Bool → M Bool
  unfolding with_hooks run_hooks
  run_with_job_hooks = with_hooks (run_hooks job.timeouts.hook_timeout) job.hooks

  -- `_run_backup_backup`
  unfoldable pub backup_backup : String → Option BackupConfig → M Bool
  backup_backup name none = pure false
  backup_backup name (some backup) = do
    (success, summary) ←
        tracked_step cb ("backup." <> (name <> ".backup")) (
          Backup.execute_backup o dry_run backup.input.sources backup.timeouts.backup_timeout
            backup)
    if success && not dry_run then (record_artifact name summary >> pure success) else pure success

  unfoldable pub run_backup_backup : String → M Bool
  unfolding backup_backup tracked_step record_artifact
  run_backup_backup name = backup_backup name (Dict.lookup name job.backup)

  -- `_run_backup_forget`
  unfoldable pub backup_forget : String → Option BackupConfig → M Bool
  backup_forget name none = pure false
  backup_forget name (some backup) = do
    (success, _) ←
        tracked_step cb ("backup." <> (name <> ".retention"))
          (plain (Backup.execute_forget o dry_run backup.timeouts.backup_timeout backup))
    pure success

  unfoldable pub run_backup_forget : String → M Bool
  unfolding backup_forget tracked_step
  run_backup_forget name = backup_forget name (Dict.lookup name job.backup)

  -- `_run_backup_prune`
  unfoldable pub backup_prune : String → Option BackupConfig → M Bool
  backup_prune name none = pure false
  backup_prune name (some backup) = do
    (success, _) ←
        tracked_step cb ("backup." <> (name <> ".cleanup"))
          (plain (Backup.execute_prune o dry_run backup.timeouts.backup_timeout backup))
    pure success

  unfoldable pub run_backup_prune : String → M Bool
  unfolding backup_prune tracked_step
  run_backup_prune name = backup_prune name (Dict.lookup name job.backup)

  -- `_run_backup_core`: each part only after the one before, and only if it is switched on.
  unfoldable pub run_backup_core : String → BackupConfig → M Bool
  run_backup_core name backup = do
    saved ← run_backup_backup name
    if saved
        then (do
          kept ← (if backup.execution.retention then run_backup_forget name else pure true)
          if kept
              then (if backup.execution.cleanup then run_backup_prune name else pure true)
              else pure false)
        else pure false

  unfoldable pub whole_backup : String → Option BackupConfig → M Bool
  whole_backup name none = pure false
  whole_backup name (some backup) =
      with_hooks (run_hooks backup.timeouts.hook_timeout) backup.hooks (run_backup_core name backup)

  -- `_run_backup`, `execute_backup`
  unfoldable pub run_backup : String → M Bool
  unfolding whole_backup with_hooks run_hooks run_backup_core
  run_backup name = whole_backup name (Dict.lookup name job.backup)

  unfoldable pub rclone_task : String → Option RcloneTaskConfig → M Bool
  rclone_task name none = pure false
  rclone_task name (some task) = with_hooks (run_hooks task.timeouts.hook_timeout) task.hooks (do
    (success, _) ←
        tracked_step cb ("rclone." <> (name <> ".rclone"))
          (plain (Rclone.execute_rclone o dry_run task.timeouts.rclone_timeout task))
    pure success)

  -- `_run_rclone`
  unfoldable pub run_rclone : String → M Bool
  unfolding rclone_task with_hooks run_hooks tracked_step
  run_rclone name = rclone_task name (Dict.lookup name job.rclone)

  unfoldable pub run_substep : String → String → M Bool
  run_substep name sub =
      if sub == "backup"
      then run_backup_backup name
      else if sub == "retention"
      then run_backup_forget name
      else if sub == "cleanup"
      then run_backup_prune name
      else pure false

  -- The tests of `execute_step` on the parts of a step; `pure false` is its unknown format.
  unfoldable pub dispatch_step : List String → M Bool
  unfolding run_substep
  dispatch_step (kind ∷ name ∷ []) =
      if kind == "rclone"
      then run_rclone name
      else if kind == "backup"
      then run_backup name
      else pure false
  dispatch_step (kind ∷ name ∷ sub ∷ []) =
      if kind == "backup" then run_substep name sub else pure false
  dispatch_step _ = pure false

  unfoldable pub execute_step : String → M Bool
  unfolding dispatch_step
  execute_step step = dispatch_step (split_on "." step)

  -- The loop of `execute_workflow` over the steps, which ends at the first that fails.
  unfoldable pub run_steps : List String → M Bool
  run_steps [] = pure true
  run_steps (step ∷ steps) = do
    success ← execute_step step
    if success then run_steps steps else pure false

  unfoldable pub execute_workflow : WorkflowConfig → M Bool
  unfolding run_steps with_hooks run_hooks
  execute_workflow workflow =
      with_hooks (run_hooks workflow.timeouts.hook_timeout) workflow.hooks
        (run_steps workflow.steps)
