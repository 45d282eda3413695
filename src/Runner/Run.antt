-- ===== src/Runner/Run.antt =====
-- The entry points of core/job_runner.py: `run_backup`, `run_step` and `run_workflow`, each under
-- the locks of its resources (`_run_locked`).
use dockkeep.Prelude.{
  String, Bool, true, false, Option, none, some, List, [], ◌∷◌, ◌++◌, ◌==◌, split_on, if◌then◌else◌,
}
use dockkeep.Prelude.Dict
use dockkeep.Config.{BackupConfig, RcloneTaskConfig, WorkflowConfig, JobConfig}
use dockkeep.Effects.{
  Outside, Exn, cancelled, job_running, value_error, failure, unexpected, Outcome, ok, raised,
  Trace, M, pure, raise, look, attempt, finally, ◌>>=◌, ◌>>◌,
}
use dockkeep.Locking.{
  canonical_error, resource_for_repository, resource_for_rclone_endpoint, lock_paths, paths_inside,
  rev_onto, release_all, acquire_with_retry,
}
use dockkeep.Engine.{exn_text}
use dockkeep.Engine
use dockkeep.Runner.{
  Settings, or_zero, callbacks, mark_operational_complete, collect_run_successes, collect_step,
  collect_workflow,
}
use dockkeep.Runner.Steps.{lock_task_of}

-- Resources of a task that is configured; `none` where it is missing.
abbrev pub repository_of : (String → String) → Option BackupConfig → Option (List String)
repository_of resolve none = none
repository_of resolve (some backup) = some (resource_for_repository resolve backup.repository ∷ [])

abbrev pub endpoints_of : (String → String) → Option RcloneTaskConfig → Option (List String)
endpoints_of resolve none = none
endpoints_of resolve (some task) = some (
    resource_for_rclone_endpoint resolve task.source
    ∷ resource_for_rclone_endpoint resolve task.target
    ∷ [])

abbrev pub join_resources : Option (List String) → Option (List String) → Option (List String)
join_resources none _ = none
join_resources (some rs) none = none
join_resources (some rs) (some rest) = some (rs ++ rest)

module _ (job : JobConfig) (resolve : String → String) where
  -- The existence checks of a step, and `_resources_for_step`.
  abbrev pub named_resources : String → Option String → Option (List String)
  named_resources kind none = none
  named_resources kind (some name) =
      if kind == "rclone"
      then endpoints_of resolve (Dict.lookup name job.rclone)
      else repository_of resolve (Dict.lookup name job.backup)

  unfoldable pub step_resources : List String → Option (List String)
  unfolding lock_task_of
  step_resources [] = none
  step_resources (kind ∷ rest) = named_resources kind (lock_task_of (kind ∷ rest))

  -- `_resources_for_workflow`
  unfoldable pub workflow_resources : List String → Option (List String)
  unfolding step_resources
  workflow_resources [] = some []
  workflow_resources (step ∷ steps) =
      join_resources (step_resources (split_on "." step)) (workflow_resources steps)

-- The first of two exceptions.
abbrev pub first_error : Option String → Option String → Option String
first_error (some e) _ = some e
first_error none e = e

-- The exceptions of the same functions, where the path of a resource cannot be resolved.
abbrev pub repository_error : (String → Option String) → Option BackupConfig → Option String
repository_error resolve none = none
repository_error resolve (some backup) = canonical_error resolve false backup.repository

abbrev pub endpoints_error : (String → Option String) → Option RcloneTaskConfig → Option String
endpoints_error resolve none = none
endpoints_error resolve (some task) =
    first_error (canonical_error resolve true task.source)
      (canonical_error resolve true task.target)

-- A missing task ends the loop before the later steps.
abbrev pub next_error : Option (List String) → Option String → Option String → Option String
next_error none e rest = none
next_error (some rs) e rest = first_error e rest

module _ (job : JobConfig) (resolve : String → Option String) where
  abbrev pub named_error : String → Option String → Option String
  named_error kind none = none
  named_error kind (some name) =
      if kind == "rclone"
      then endpoints_error resolve (Dict.lookup name job.rclone)
      else repository_error resolve (Dict.lookup name job.backup)

  unfoldable pub step_error : List String → Option String
  unfolding lock_task_of
  step_error [] = none
  step_error (kind ∷ rest) = named_error kind (lock_task_of (kind ∷ rest))

  unfoldable pub workflow_error : List String → Option String
  unfolding step_resources step_error
  workflow_error [] = none
  workflow_error (step ∷ steps) =
      next_error (step_resources job (λ value. value) (split_on "." step))
        (step_error (split_on "." step)) (workflow_error steps)

-- An exception of the resources leaves the method: they are computed before the `try`.
abbrev pub resolved : Option String → M Bool → M Bool
resolved none m = m
resolved (some e) m = raise (failure e)

module _ (o : Outside) (s : Settings) where
  -- The handlers of `_run_locked`; `started` is its `operational_started`.
  unfoldable pub fail_locked : Bool → Exn → M Bool
  unfolding exn_text mark_operational_complete
  fail_locked started (job_running path) = raise (job_running path)
  fail_locked started cancelled = raise cancelled
  fail_locked started e =
      (if started then mark_operational_complete o s else pure tt)
      >> raise (unexpected (exn_text e))

  -- The check of the constructor of ResourceLockManager, then its locks.
  unfoldable pub enter_locks : List String → M (Unit {0})
  enter_locks paths = do
    inside ← look o (λ t. paths_inside (o.resolve t) s.lock_dir paths)
    if inside
        then acquire_with_retry o (or_zero s.retry_count) s.retry_delay paths
        else raise (value_error "Invalid resource lock path")

  -- What runs while the locks are held.
  unfoldable pub locked_body : M Bool → (Bool → M (Unit {0})) → M Bool
  locked_body operation collect = do
    success ← Engine.run_with_job_hooks o (callbacks o s) s.job s.dry_run operation
    mark_operational_complete o s
    collect success
    pure success

  abbrev pub settle_body : Outcome Bool → M Bool
  settle_body (ok success) = pure success
  settle_body (raised e) = fail_locked true e

  abbrev pub after_entry :
      List String → M Bool → (Bool → M (Unit {0})) → Outcome (Unit {0}) → M Bool
  after_entry paths operation collect (raised e) = fail_locked false e
  after_entry paths operation collect (ok _) =
      attempt (finally (locked_body operation collect) (release_all (rev_onto paths [])))
        settle_body

  unfoldable pub run_locked : List String → M Bool → (Bool → M (Unit {0})) → M Bool
  unfolding enter_locks locked_body fail_locked
  run_locked resources operation collect =
      let paths = lock_paths s.digest s.lock_dir resources in
      attempt (enter_locks paths) (after_entry paths operation collect)

  abbrev pub run_known : Option (List String) → M Bool → (Bool → M (Unit {0})) → M Bool
  run_known none operation collect = pure false
  run_known (some resources) operation collect = run_locked resources operation collect

  abbrev pub resolve_at : Trace → String → String
  resolve_at t value = o.resolve t (o.expanduser value)

  unfoldable pub run_backup : String → M Bool
  unfolding run_locked
  run_backup name = do
    error ← look o (λ t. repository_error (o.resolve_error t) (Dict.lookup name s.job.backup))
    resources ← look o (λ t. repository_of (resolve_at t) (Dict.lookup name s.job.backup))
    resolved error (
        run_known resources (Engine.run_backup o (callbacks o s) s.job s.dry_run name)
          (collect_run_successes o s name))

  abbrev pub name_of : Option String → String
  name_of none = ""
  name_of (some name) = name

  unfoldable pub run_step : String → M Bool
  unfolding run_locked
  run_step step = do
    error ← look o (λ t. step_error s.job (o.resolve_error t) (split_on "." step))
    resources ← look o (λ t. step_resources s.job (resolve_at t) (split_on "." step))
    resolved error (
        run_known resources (Engine.execute_step o (callbacks o s) s.job s.dry_run step)
          (collect_step o s (split_on "." step) (name_of (lock_task_of (split_on "." step)))))

  abbrev pub run_found : Option WorkflowConfig → M Bool
  run_found none = pure false
  run_found (some workflow) = do
    error ← look o (λ t. workflow_error s.job (o.resolve_error t) workflow.steps)
    resources ← look o (λ t. workflow_resources s.job (resolve_at t) workflow.steps)
    resolved error (
        run_known resources (Engine.execute_workflow o (callbacks o s) s.job s.dry_run workflow)
          (collect_workflow o s workflow.steps))

  unfoldable pub run_workflow : String → M Bool
  unfolding run_locked
  run_workflow name = run_found (Dict.lookup name s.job.workflows)
