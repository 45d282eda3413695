-- ===== src/Executors/Frame.antt =====
-- The executors keep every closed condition that admits their commands.
use dockkeep.Prelude.{
  ℕ, zero, suc, String, ◌≡◌, Bool, true, false, Option, none, some, List, [], ◌∷◌,
}
use dockkeep.Prelude.Dict.{Dict}
use dockkeep.Config.{BackupConfig, RcloneTaskConfig}
use dockkeep.Effects.{Outside, ok, Process, Ending, exit, interrupted, crash, World}
use dockkeep.Effects.Keeps.{Keeps, Keeps-pure, Keeps-raise, Keeps-bind, Keeps-if}
use dockkeep.Effects.Frame.{Closed, Keeps-look, Keeps-bind-lift}
use dockkeep.Executors.{settle, run_subprocess}
use dockkeep.Executors.Restic.{
  settle_command, restic_command, check_repository, init_repository, ensure_repository,
}
use dockkeep.Executors.Commands.{
  build_backup_command, build_forget_command, build_prune_command, build_rclone_command,
}
use dockkeep.Executors.Backup.{execute_backup, execute_forget, execute_prune}
use dockkeep.Executors.Rclone.{
  listed, list_remotes, check_remote, check_named, source_is_safe_for_sync, guard_sync,
  execute_rclone, parse_remote_name,
}
use dockkeep.Executors.Hooks.{
  Resolved, script_error, inline, script, run_args, run_resolved, run_single, run, run_executor,
}

-- The questions that the program asks restic and rclone before it runs a task.
pub data IsProbe : List String → Type 0 where
  cat_config :
      (repository : String) → IsProbe ("restic" ∷ "--repo" ∷ repository ∷ "cat" ∷ "config" ∷ [])
  init : (repository : String) → IsProbe ("restic" ∷ "--repo" ∷ repository ∷ "init" ∷ [])
  listremotes : IsProbe ("rclone" ∷ "listremotes" ∷ [])

-- A command that an executor has built.
pub data IsBuilt (dry_run : Bool) : List String → Type 0 where
  backup :
      (sources : List String) (config : BackupConfig) {command : List String}
      → build_backup_command dry_run sources config.repository config ≡ ok command
      → IsBuilt dry_run command
  forget :
      (config : BackupConfig) {command : List String}
      → build_forget_command dry_run config.repository config ≡ ok command
      → IsBuilt dry_run command
  prune :
      (config : BackupConfig) {command : List String}
      → build_prune_command dry_run config.repository config ≡ ok command
      → IsBuilt dry_run command
  rclone :
      (config : RcloneTaskConfig) {command : List String}
      → build_rclone_command dry_run config ≡ ok command
      → IsBuilt dry_run command

-- What the class of admitted processes has to hold.
pub record Admits (A : Process → Type 0) (dry_run : Bool) : Type 0 where
  pub probe : (p : Process) → IsProbe p.argv → A p
  pub built : (p : Process) → IsBuilt dry_run p.argv → A p
  pub hook : (p : Process) → dry_run ≡ false → A p

module _ {P : World → Type 0} where
  pub settle-Keeps : (e : Ending) → Keeps P (settle e)
  unfolding settle
  settle-Keeps (exit zero) = Keeps-pure true
  settle-Keeps (exit (suc n)) = Keeps-pure false
  settle-Keeps interrupted = Keeps-raise _
  settle-Keeps (crash e) = Keeps-raise _
  settle-Keeps _ = Keeps-pure false

  settle_command-Keeps : (e : Ending) → Keeps P (settle_command e)
  unfolding settle_command
  settle_command-Keeps (exit zero) = Keeps-pure true
  settle_command-Keeps (exit (suc n)) = Keeps-pure false
  settle_command-Keeps interrupted = Keeps-raise _
  settle_command-Keeps (crash e) = Keeps-raise _
  settle_command-Keeps _ = Keeps-pure false

  pub listed-Keeps : (lines : List String) (e : Ending) → Keeps P (listed lines e)
  listed-Keeps lines (exit zero) = Keeps-pure _
  listed-Keeps lines (exit (suc n)) = Keeps-pure _
  listed-Keeps lines interrupted = Keeps-raise _
  listed-Keeps lines (crash e) = Keeps-raise _
  listed-Keeps lines _ = Keeps-pure _

module _ (o : Outside) (dry_run : Bool) {A : Process → Type 0} {P : World → Type 0}
    (c : Closed o A P) (d : Admits A dry_run) where
  run_subprocess-Keeps :
      (command : List String) (env : Option (Dict String)) (timeout : Option ℕ)
      → IsBuilt dry_run command
      → Keeps P (run_subprocess o command env timeout)
  unfolding run_subprocess
  run_subprocess-Keeps command env timeout b =
      Keeps-bind _ _ (c.start _ (d.built _ b))
        (λ result. Keeps-bind _ _ (settle-Keeps result.ending) (λ success. Keeps-pure _))

  restic_command-Keeps :
      (argv : List String) (env : Dict String) (timeout : Option ℕ)
      → IsProbe argv
      → Keeps P (restic_command o argv env timeout)
  unfolding restic_command
  restic_command-Keeps argv env timeout i =
      Keeps-bind _ _ (c.start _ (d.probe _ i)) (λ result. settle_command-Keeps result.ending)

  ensure_repository-Keeps :
      (repository : String) (env : Dict String) (timeout : Option ℕ)
      → Keeps P (ensure_repository o repository env timeout)
  unfolding ensure_repository check_repository init_repository
  ensure_repository-Keeps repository env timeout =
      Keeps-bind _ _ (restic_command-Keeps _ env timeout (cat_config repository)) (λ ready.
        Keeps-if ready _ _ (Keeps-pure true) (restic_command-Keeps _ env timeout (init repository)))

  pub execute_backup-Keeps :
      (sources : List String) (timeout : Option ℕ) (config : BackupConfig)
      → Keeps P (execute_backup o dry_run sources timeout config)
  unfolding execute_backup
  execute_backup-Keeps sources timeout config =
      Keeps-bind _ _
        (Keeps-if config.execution.auto_init _ _ (ensure_repository-Keeps _ _ _) (Keeps-pure true))
        (λ ready.
          Keeps-if ready _ _
            (Keeps-bind-lift _ _ (λ command e.
              Keeps-bind _ _ (run_subprocess-Keeps command _ _ (backup sources config e))
                (λ r. Keeps-pure _)))
            (Keeps-pure _))

  pub execute_forget-Keeps :
      (timeout : Option ℕ) (config : BackupConfig)
      → Keeps P (execute_forget o dry_run timeout config)
  unfolding execute_forget
  execute_forget-Keeps timeout config = Keeps-bind-lift _ _ (λ command e.
      Keeps-bind _ _ (run_subprocess-Keeps command _ _ (forget config e)) (λ r. Keeps-pure _))

  pub execute_prune-Keeps :
      (timeout : Option ℕ) (config : BackupConfig)
      → Keeps P (execute_prune o dry_run timeout config)
  unfolding execute_prune
  execute_prune-Keeps timeout config = Keeps-bind-lift _ _ (λ command e.
      Keeps-bind _ _ (run_subprocess-Keeps command _ _ (prune config e)) (λ r. Keeps-pure _))

  list_remotes-Keeps : (timeout : Option ℕ) → Keeps P (list_remotes o timeout)
  unfolding list_remotes
  list_remotes-Keeps timeout =
      Keeps-bind _ _ (c.start _ (d.probe _ listremotes))
        (λ result. listed-Keeps result.lines result.ending)

  check_named-Keeps :
      (name : Option String) (timeout : Option ℕ) → Keeps P (check_named o name timeout)
  check_named-Keeps none timeout = Keeps-pure false
  check_named-Keeps (some name) timeout =
      Keeps-bind _ _ (list_remotes-Keeps timeout) (λ configured. Keeps-pure _)

  guard_sync-Keeps : (delete : Option Bool) (source : String) → Keeps P (guard_sync o delete source)
  unfolding source_is_safe_for_sync
  guard_sync-Keeps (some true) source = Keeps-bind _ _ (Keeps-look o _) (λ state. Keeps-pure _)
  guard_sync-Keeps (some false) source = Keeps-pure true
  guard_sync-Keeps none source = Keeps-pure true

  pub execute_rclone-Keeps :
      (timeout : Option ℕ) (config : RcloneTaskConfig)
      → Keeps P (execute_rclone o dry_run timeout config)
  unfolding execute_rclone check_remote
  execute_rclone-Keeps timeout config =
      Keeps-bind _ _ (check_named-Keeps (parse_remote_name config.target) timeout) (λ known.
        Keeps-if known _ _
          (Keeps-bind _ _ (guard_sync-Keeps config.sync_delete config.source) (λ safe.
            Keeps-if safe _ _
              (Keeps-bind-lift _ _ (λ command e.
                Keeps-bind _ _ (run_subprocess-Keeps command _ _ (rclone config e))
                  (λ r. Keeps-pure _)))
              (Keeps-pure false)))
          (Keeps-pure false))

  module _ (wet : dry_run ≡ false) (scripts_dir resolved_dir : String) where
    run_args-Keeps :
        (args : List String) (timeout : Option ℕ)
        → Keeps P (run_args o scripts_dir resolved_dir args timeout)
    unfolding run_args
    run_args-Keeps args timeout = Keeps-bind _ _ (Keeps-look o _) (λ facts.
        Keeps-if _ _ _
          (Keeps-bind _ _ (c.start _ (d.hook _ wet)) (λ result. settle-Keeps result.ending))
          (Keeps-pure false))

    run_resolved-Keeps :
        (cmd : String) (timeout : Option ℕ) (r : Resolved)
        → Keeps P (run_resolved o scripts_dir resolved_dir cmd timeout r)
    run_resolved-Keeps cmd timeout script_error = Keeps-pure false
    run_resolved-Keeps cmd timeout inline =
        Keeps-if _ _ _ (run_args-Keeps _ timeout) (Keeps-pure false)
    run_resolved-Keeps cmd timeout (script argv) = run_args-Keeps argv timeout

    hooks-Keeps :
        (timeout : Option ℕ) (hooks : List String)
        → Keeps P (run o scripts_dir resolved_dir timeout hooks)
    unfolding run run_single
    hooks-Keeps timeout [] = Keeps-pure true
    hooks-Keeps timeout (hook ∷ hooks) =
        Keeps-bind _ _ (Keeps-bind _ _ (Keeps-look o _) (run_resolved-Keeps hook timeout))
          (λ success. Keeps-if success _ _ (hooks-Keeps timeout hooks) (Keeps-pure false))

  pub run_executor-Keeps :
      (wet : dry_run ≡ false) (scripts_dir : String) (timeout : Option ℕ) (hooks : List String)
      → Keeps P (run_executor o scripts_dir timeout hooks)
  unfolding run_executor
  run_executor-Keeps wet scripts_dir timeout hooks =
      Keeps-bind _ _ (Keeps-look o _)
        (λ resolved_dir. hooks-Keeps wet scripts_dir resolved_dir timeout hooks)
