-- ===== src/Engine/Frame.antt =====
-- The engine keeps every closed condition that its callbacks keep and that admits its commands.
use dockkeep.Prelude.{
  ℕ, String, Bool, true, false, Option, none, some, List, [], ◌∷◌, ◌==◌, split_on,
}
use dockkeep.Prelude.Dict
use dockkeep.Config.{HooksConfig, BackupConfig, RcloneTaskConfig, WorkflowConfig, JobConfig}
use dockkeep.Effects.{Outside, cancelled, Outcome, ok, raised, Process, World, Summary, M}
use dockkeep.Effects.Keeps.{Keeps, Keeps-pure, Keeps-raise, Keeps-bind, Keeps-if, Keeps-attempt}
use dockkeep.Effects.Frame.{Closed, Keeps-if_eq}
use dockkeep.Executors.Frame.{
  Admits, execute_backup-Keeps, execute_forget-Keeps, execute_prune-Keeps, execute_rclone-Keeps,
  run_executor-Keeps,
}
use dockkeep.Engine

pub record CallbacksKeep (P : World → Type 0) (cb : Engine.StepCallbacks) : Type 0 where
  pub started : (step : String) → Keeps P (cb.started step)
  pub finished :
      (id : Option String) (step : String) (success : Bool) (error : Option String)
      (was_cancelled : Bool)
      → Keeps P (cb.finished id step success error was_cancelled)

module _ {P : World → Type 0} where
  pub with_hooks-Keeps :
      (run_hooks : List String → M Bool) (hooks : HooksConfig) (operation : M Bool)
      → ((hs : List String) → Keeps P (run_hooks hs))
      → Keeps P operation
      → Keeps P (Engine.with_hooks run_hooks hooks operation)
  unfolding Engine.with_hooks
  with_hooks-Keeps run_hooks hooks operation hr ho = Keeps-bind _ _ (hr hooks.pre_hooks) (λ pre.
      Keeps-if pre _ _
        (Keeps-bind _ _ ho (λ success.
          Keeps-if success _ _ (Keeps-bind _ _ (hr hooks.post_hooks) (λ _. Keeps-pure true))
            (Keeps-bind _ _ (hr hooks.on_error_hooks) (λ _. Keeps-pure false))))
        (Keeps-bind _ _ (hr hooks.on_error_hooks) (λ _. Keeps-pure false)))

  module _ (cb : Engine.StepCallbacks) (k : CallbacksKeep P cb) where
    close_step-Keeps :
        (id : Option String) (step : String) (r : Outcome Engine.StepResult)
        → Keeps P (Engine.close_step cb id step r)
    unfolding Engine.close_step
    close_step-Keeps id step (ok (success, summary)) =
        Keeps-bind _ _ (k.finished id step success _ false) (λ _. Keeps-pure _)
    close_step-Keeps id step (raised cancelled) =
        Keeps-bind _ _ (k.finished id step false _ true) (λ _. Keeps-raise _)
    close_step-Keeps id step (raised e) =
        Keeps-bind _ _ (k.finished id step false _ false) (λ _. Keeps-raise _)

    pub tracked_step-Keeps :
        (step : String) (operation : M Engine.StepResult)
        → Keeps P operation
        → Keeps P (Engine.tracked_step cb step operation)
    unfolding Engine.tracked_step
    tracked_step-Keeps step operation h =
        Keeps-bind _ _ (k.started step) (λ id. Keeps-attempt _ _ h (close_step-Keeps id step))

plain-Keeps : {P : World → Type 0} (m : M Bool) → Keeps P m → Keeps P (Engine.plain m)
plain-Keeps m h = Keeps-bind m _ h (λ success. Keeps-pure _)

-- A tracked step keeps `P` around an operation that keeps every closed condition.
pub record Tracks (o : Outside) (A : Process → Type 0) (P : World → Type 0)
    (cb : Engine.StepCallbacks) : Type 1 where
  pub tracked :
      (step : String) (operation : M Engine.StepResult)
      → ((Q : World → Type 0) → Closed o A Q → Keeps Q operation)
      → Keeps P (Engine.tracked_step cb step operation)

pub keep-Tracks :
    (o : Outside) (cb : Engine.StepCallbacks) {A : Process → Type 0} {P : World → Type 0}
    → Closed o A P
    → CallbacksKeep P cb
    → Tracks o A P cb
keep-Tracks o cb {A} {P} c k = record {
  tracked = λ step operation h. tracked_step-Keeps cb k step operation (h P c);
}

module _ (o : Outside) (cb : Engine.StepCallbacks) (job : JobConfig) (dry_run : Bool)
    {A : Process → Type 0} {P : World → Type 0} (c : Closed o A P) (d : Admits A dry_run) where
  run_hooks-Keeps :
      (timeout : Option ℕ) (hooks : List String)
      → Keeps P (Engine.run_hooks o cb job dry_run timeout hooks)
  unfolding Engine.run_hooks
  run_hooks-Keeps timeout hooks =
      Keeps-if_eq dry_run _ _ (λ _. Keeps-pure true)
        (λ wet. run_executor-Keeps o dry_run c d wet _ timeout hooks)

  pub run_with_job_hooks-Keeps :
      (operation : M Bool)
      → Keeps P operation
      → Keeps P (Engine.run_with_job_hooks o cb job dry_run operation)
  unfolding Engine.run_with_job_hooks
  run_with_job_hooks-Keeps operation h =
      with_hooks-Keeps _ job.hooks operation (run_hooks-Keeps job.timeouts.hook_timeout) h

module _ (o : Outside) (cb : Engine.StepCallbacks) (job : JobConfig) (dry_run : Bool)
    {A : Process → Type 0} {P : World → Type 0} (c : Closed o A P) (d : Admits A dry_run)
    (k : Tracks o A P cb) where
  record_artifact-Keeps :
      (name : String) (summary : Option Summary) → Keeps P (Engine.record_artifact name summary)
  unfolding Engine.record_artifact
  record_artifact-Keeps name summary = record { at = λ w h. c.file_artifacts w _ h }

  backup_backup-Keeps :
      (name : String) (b : Option BackupConfig)
      → Keeps P (Engine.backup_backup o cb job dry_run name b)
  unfolding Engine.backup_backup
  backup_backup-Keeps name none = Keeps-pure false
  backup_backup-Keeps name (some backup) =
      Keeps-bind _ _ (k.tracked _ _ (λ Q c'. execute_backup-Keeps o dry_run c' d _ _ backup)) (λ r.
        Keeps-if _ _ _ (Keeps-bind _ _ (record_artifact-Keeps name _) (λ _. Keeps-pure _))
          (Keeps-pure _))

  backup_forget-Keeps :
      (name : String) (b : Option BackupConfig)
      → Keeps P (Engine.backup_forget o cb job dry_run name b)
  unfolding Engine.backup_forget
  backup_forget-Keeps name none = Keeps-pure false
  backup_forget-Keeps name (some backup) =
      Keeps-bind _ _
        (k.tracked _ _ (λ Q c'. plain-Keeps _ (execute_forget-Keeps o dry_run c' d _ backup)))
        (λ r. Keeps-pure _)

  backup_prune-Keeps :
      (name : String) (b : Option BackupConfig)
      → Keeps P (Engine.backup_prune o cb job dry_run name b)
  unfolding Engine.backup_prune
  backup_prune-Keeps name none = Keeps-pure false
  backup_prune-Keeps name (some backup) =
      Keeps-bind _ _
        (k.tracked _ _ (λ Q c'. plain-Keeps _ (execute_prune-Keeps o dry_run c' d _ backup)))
        (λ r. Keeps-pure _)

  whole_backup-Keeps :
      (name : String) (b : Option BackupConfig)
      → Keeps P (Engine.whole_backup o cb job dry_run name b)
  unfolding Engine.whole_backup Engine.run_backup_core Engine.run_backup_backup
      Engine.run_backup_forget Engine.run_backup_prune
  whole_backup-Keeps name none = Keeps-pure false
  whole_backup-Keeps name (some backup) =
      with_hooks-Keeps _ backup.hooks _
        (run_hooks-Keeps o cb job dry_run c d backup.timeouts.hook_timeout)
        (Keeps-bind _ _ (backup_backup-Keeps name _) (λ saved.
          Keeps-if saved _ _
            (Keeps-bind _ _ (Keeps-if _ _ _ (backup_forget-Keeps name _) (Keeps-pure true)) (λ kept.
              Keeps-if kept _ _ (Keeps-if _ _ _ (backup_prune-Keeps name _) (Keeps-pure true))
                (Keeps-pure false)))
            (Keeps-pure false)))

  pub run_backup-Keeps : (name : String) → Keeps P (Engine.run_backup o cb job dry_run name)
  unfolding Engine.run_backup
  run_backup-Keeps name = whole_backup-Keeps name _

  rclone_task-Keeps :
      (name : String) (t : Option RcloneTaskConfig)
      → Keeps P (Engine.rclone_task o cb job dry_run name t)
  unfolding Engine.rclone_task
  rclone_task-Keeps name none = Keeps-pure false
  rclone_task-Keeps name (some task) =
      with_hooks-Keeps _ task.hooks _
        (run_hooks-Keeps o cb job dry_run c d task.timeouts.hook_timeout)
        (Keeps-bind _ _
          (k.tracked _ _ (λ Q c'. plain-Keeps _ (execute_rclone-Keeps o dry_run c' d _ task)))
          (λ r. Keeps-pure _))

  run_substep-Keeps : (name sub : String) → Keeps P (Engine.run_substep o cb job dry_run name sub)
  unfolding Engine.run_substep Engine.run_backup_backup Engine.run_backup_forget
      Engine.run_backup_prune
  run_substep-Keeps name sub =
      let b = Dict.lookup name job.backup in
      Keeps-if (sub == "backup") _ _ (backup_backup-Keeps name b) (
        Keeps-if (sub == "retention") _ _ (backup_forget-Keeps name b)
          (Keeps-if (sub == "cleanup") _ _ (backup_prune-Keeps name b) (Keeps-pure false)))

  dispatch_step-Keeps :
      (parts : List String) → Keeps P (Engine.dispatch_step o cb job dry_run parts)
  unfolding Engine.dispatch_step Engine.run_rclone
  dispatch_step-Keeps [] = Keeps-pure false
  dispatch_step-Keeps (kind ∷ []) = Keeps-pure false
  dispatch_step-Keeps (kind ∷ name ∷ []) =
      Keeps-if (kind == "rclone") _ _ (rclone_task-Keeps name (Dict.lookup name job.rclone))
        (Keeps-if (kind == "backup") _ _ (run_backup-Keeps name) (Keeps-pure false))
  dispatch_step-Keeps (kind ∷ name ∷ sub ∷ []) =
      Keeps-if (kind == "backup") _ _ (run_substep-Keeps name sub) (Keeps-pure false)
  dispatch_step-Keeps (kind ∷ name ∷ sub ∷ more ∷ rest) = Keeps-pure false

  pub execute_step-Keeps : (step : String) → Keeps P (Engine.execute_step o cb job dry_run step)
  unfolding Engine.execute_step
  execute_step-Keeps step = dispatch_step-Keeps (split_on "." step)

  run_steps-Keeps : (steps : List String) → Keeps P (Engine.run_steps o cb job dry_run steps)
  unfolding Engine.run_steps
  run_steps-Keeps [] = Keeps-pure true
  run_steps-Keeps (step ∷ steps) =
      Keeps-bind _ _ (execute_step-Keeps step)
        (λ success. Keeps-if success _ _ (run_steps-Keeps steps) (Keeps-pure false))

  pub execute_workflow-Keeps :
      (workflow : WorkflowConfig) → Keeps P (Engine.execute_workflow o cb job dry_run workflow)
  unfolding Engine.execute_workflow
  execute_workflow-Keeps workflow =
      with_hooks-Keeps _ workflow.hooks _
        (run_hooks-Keeps o cb job dry_run c d workflow.timeouts.hook_timeout)
        (run_steps-Keeps workflow.steps)
