-- ===== src/Runner/DryRun.antt =====
-- What a dry run starts (core/job_runner.py with `dry_run`).
use dockkeep.Prelude.{
  String, ◌≡◌, refl, sym, ◌∙◌, subst, false≢true, Bool, true, ◌⊎◌, inl, inr, Option, none, some,
  List, [], ◌∷◌, ◌++◌, contains, contains-left, contains-right, arith,
}
use dockkeep.Prelude.Dict
use dockkeep.Config.{BackupConfig, RcloneTaskConfig, WorkflowConfig}
use dockkeep.Effects.{Outside, Process, Outcome, ok, raised, World, M, look, pure, raise, ◌>>=◌}
use dockkeep.Effects.Keeps.{Keeps}
use dockkeep.Effects.Frame.{Closed}
use dockkeep.Effects.Since.{Since, Since-refl, Frame-Closed}
use dockkeep.Locking.{lock_paths, rev_onto}
use dockkeep.Executors.Commands.{
  build_backup_command, build_forget_command, build_prune_command, build_rclone_command,
  backup_flags, forget_flags, prune_flags, rclone_flags, subcommand, with_extra, keep_flags,
  opt_count, opt_flag, opt_switch, each_flag, excludes, source_args,
}
use dockkeep.Executors.Frame.{
  Admits, IsProbe, cat_config, init, listremotes, IsBuilt, backup, forget, prune, rclone,
}
use dockkeep.Engine.Frame.{Tracks, run_backup-Keeps, execute_step-Keeps, execute_workflow-Keeps}
use dockkeep.Runner.{Settings, callbacks}
use dockkeep.Runner.Run
use dockkeep.Runner.Run.{resolved, run_known}
use dockkeep.Runner.Safety.{run_locked-Frame}
use dockkeep.Runner.Frame.{
  frame-Tracks, collect_run_successes-Keeps, collect_step-Keeps, collect_workflow-Keeps,
}

-- The program is restic or rclone, so it is neither a script nor the shell of a hook.
abbrev pub IsTool : List String → Type 0
IsTool [] = ⊥
IsTool (program ∷ args) = (program ≡ "restic") ⊎ (program ≡ "rclone")

-- A process that a dry run may start.
abbrev pub IsHarmless : Process → List String → Type 0
IsHarmless p held = IsTool p.argv × (IsProbe p.argv ⊎ (contains p.argv "--dry-run" ≡ true))

probe-IsTool : (argv : List String) → IsProbe argv → IsTool argv
probe-IsTool argv (cat_config repository) = inl refl
probe-IsTool argv (init repository) = inl refl
probe-IsTool argv listremotes = inr refl

IsTool-append : (xs ys : List String) → IsTool xs → IsTool (xs ++ ys)
IsTool-append [] ys h = absurd h
IsTool-append (x ∷ xs) ys h = h

with_extra-IsTool :
    (flags after : List String) (extra : Outcome (List String)) {command : List String}
    → IsTool flags
    → with_extra flags extra after ≡ ok command
    → IsTool command
with_extra-IsTool flags after (ok extra) {command} h e =
    let p : command ≡ flags ++ (extra ++ after) = ground arith in
    rw p (IsTool-append flags (extra ++ after) h)
with_extra-IsTool flags after (raised x) h e = cc

built-IsTool : (command : List String) → IsBuilt true command → IsTool command
unfolding build_backup_command build_forget_command build_prune_command build_rclone_command
built-IsTool command (backup sources config e) =
    with_extra-IsTool (backup_flags config.repository config true) (source_args sources) _
      (inl refl) e
built-IsTool command (forget config e) =
    with_extra-IsTool (forget_flags config.repository config true) [] _ (inl refl) e
built-IsTool command (prune config e) =
    with_extra-IsTool (prune_flags config.repository true) [] _ (inl refl) e
built-IsTool command (rclone config e) =
    with_extra-IsTool (rclone_flags config true) [] _ (inr refl) e

with_extra_dry :
    (flags after : List String) (extra : Outcome (List String)) {command : List String}
    → contains flags "--dry-run" ≡ true
    → with_extra flags extra after ≡ ok command
    → contains command "--dry-run" ≡ true
with_extra_dry flags after (ok extra) {command} h e =
    let p : command ≡ flags ++ (extra ++ after) = ground arith in
    rw p (contains-left flags (extra ++ after) "--dry-run" h)
with_extra_dry flags after (raised x) h e = cc

dry_flag : contains ("--dry-run" ∷ []) "--dry-run" ≡ true
unfolding contains
dry_flag = refl

backup_flags-dry :
    (repository : String) (config : BackupConfig)
    → contains (backup_flags repository config true) "--dry-run" ≡ true
backup_flags-dry repository config =
    contains-right ("restic" ∷ "--repo" ∷ repository ∷ "backup" ∷ "--json" ∷ []) _ _ (
      contains-right (each_flag "--files-from" config.input.source_files) _ _ (
        contains-right (excludes config.filters.exclude) _ _ (
          contains-right (each_flag "--exclude-file" config.filters.exclude_files) _ _ (
            contains-right (opt_switch "--exclude-caches" config.restic.exclude_caches) _ _ (
              contains-right (opt_switch "--one-file-system" config.restic.one_file_system) _ _
                (contains-right (each_flag "--tag" config.tags) _ _ dry_flag))))))

forget_flags-dry :
    (repository : String) (config : BackupConfig)
    → contains (forget_flags repository config true) "--dry-run" ≡ true
forget_flags-dry repository config =
    contains-right ("restic" ∷ "--repo" ∷ repository ∷ "forget" ∷ []) _ _
      (contains-right (keep_flags config.retention) _ _ dry_flag)

prune_flags-dry : (repository : String) → contains (prune_flags repository true) "--dry-run" ≡ true
prune_flags-dry repository =
    contains-right ("restic" ∷ "--repo" ∷ repository ∷ "prune" ∷ []) _ _ dry_flag

rclone_flags-dry :
    (config : RcloneTaskConfig) → contains (rclone_flags config true) "--dry-run" ≡ true
rclone_flags-dry config =
    contains-right ("rclone" ∷ subcommand config.sync_delete ∷ config.source ∷ config.target ∷ []) _
      _
      (contains-right (opt_count "--transfers" config.options.transfers) _ _ (
        contains-right (opt_count "--checkers" config.options.checkers) _ _ (
          contains-right (opt_flag "--bwlimit" config.options.bwlimit) _ _ (
            contains-right (each_flag "--exclude" config.exclude) _ _
              (contains-right (opt_flag "--filter-from" config.filter_from) _ _ dry_flag)))))

built_dry : (command : List String) → IsBuilt true command → contains command "--dry-run" ≡ true
unfolding build_backup_command build_forget_command build_prune_command build_rclone_command
built_dry command (backup sources config e) =
    with_extra_dry (backup_flags config.repository config true) (source_args sources) _
      (backup_flags-dry _ config) e
built_dry command (forget config e) =
    with_extra_dry (forget_flags config.repository config true) [] _ (forget_flags-dry _ config) e
built_dry command (prune config e) =
    with_extra_dry (prune_flags config.repository true) [] _ (prune_flags-dry config.repository) e
built_dry command (rclone config e) =
    with_extra_dry (rclone_flags config true) [] _ (rclone_flags-dry config) e

module _ (o : Outside) (s : Settings) (dry : s.dry_run ≡ true) where
  Admits-IsHarmless : (held : List String) → Admits (λ p. IsHarmless p held) s.dry_run
  Admits-IsHarmless held = record {
    probe = λ p i. (probe-IsTool p.argv i, inl i);
    built = λ p b.
        let c = subst (λ d. IsBuilt d p.argv) dry b in
        (built-IsTool p.argv c, inr (built_dry p.argv c));
    hook = λ p wet. absurd (false≢true (sym wet ∙ dry));
  }

  -- Every process that has been started since `w` is one that a dry run may start.
  abbrev pub Harmless : World → World → Type 0
  Harmless w w' = Since IsHarmless w.trace w'.trace

  harmless :
      (resources : Option (List String)) (operation : M Bool) (collect : Bool → M (Unit {0}))
      (w : World)
      → ((A : Process → Type 0) (P : World → Type 0)
          → Closed o A P
          → Admits A s.dry_run
          → Tracks o A P (callbacks o s)
          → Keeps P operation)
      → ((A : Process → Type 0) (P : World → Type 0)
          → Closed o A P
          → (b : Bool) → Keeps P (collect b))
      → Harmless w (run_known o s resources operation collect w).1
  unfolding pure
  harmless none operation collect w ho hc = Since-refl
  harmless (some resources) operation collect w ho hc =
      let taken = rev_onto (lock_paths s.digest s.lock_dir resources) [] ++ w.held in
      (run_locked-Frame o s IsHarmless w.trace resources w.held operation collect
        (Admits-IsHarmless taken)
        (ho _ _ (Frame-Closed o taken) (Admits-IsHarmless taken) (frame-Tracks o s _ _ taken))
        (hc _ _ (Frame-Closed o taken)) w (record { holds = refl; since = Since-refl })).since

  ran-Harmless :
      (error : Option String) (resources : Option (List String)) (operation : M Bool)
      (collect : Bool → M (Unit {0})) (w : World)
      → ((A : Process → Type 0) (P : World → Type 0)
          → Closed o A P
          → Admits A s.dry_run
          → Tracks o A P (callbacks o s)
          → Keeps P operation)
      → ((A : Process → Type 0) (P : World → Type 0)
          → Closed o A P
          → (b : Bool) → Keeps P (collect b))
      → Harmless w (resolved error (run_known o s resources operation collect) w).1
  unfolding raise
  ran-Harmless none resources operation collect w ho hc =
      harmless resources operation collect w ho hc
  ran-Harmless (some e) resources operation collect w ho hc = Since-refl

  backup-Harmless : (name : String) (w : World) → Harmless w (Run.run_backup o s name w).1
  unfolding Run.run_backup look ◌>>=◌
  backup-Harmless name w =
      ran-Harmless _ _ _ _ w (λ A P c d k. run_backup-Keeps o _ s.job s.dry_run c d k name)
        (λ A P c. collect_run_successes-Keeps o s c name)

  step-Harmless : (step : String) (w : World) → Harmless w (Run.run_step o s step w).1
  unfolding Run.run_step look ◌>>=◌
  step-Harmless step w =
      ran-Harmless _ _ _ _ w (λ A P c d k. execute_step-Keeps o _ s.job s.dry_run c d k step)
        (λ A P c. collect_step-Keeps o s c _ _)

  found-Harmless :
      (found : Option WorkflowConfig) (w : World) → Harmless w (Run.run_found o s found w).1
  unfolding look ◌>>=◌
  found-Harmless none w = unfold pure in Since-refl
  found-Harmless (some workflow) w =
      ran-Harmless _ _ _ _ w
        (λ A P c d k. execute_workflow-Keeps o _ s.job s.dry_run c d k workflow)
        (λ A P c. collect_workflow-Keeps o s c workflow.steps)

  -- In a dry run of a backup, a step or a workflow, the program of every process that is started is
  -- restic or rclone, never a script or a shell, and it is a question to them, or `restic init`, or its
  -- arguments have `--dry-run`.
  pub dry_run-Harmless :
      (name : String) (w : World)
      → Harmless w (Run.run_backup o s name w).1
        × Harmless w (Run.run_step o s name w).1
        × Harmless w (Run.run_workflow o s name w).1
  unfolding Run.run_workflow
  dry_run-Harmless name w = (
    backup-Harmless name w,
    step-Harmless name w,
    found-Harmless (Dict.lookup name s.job.workflows) w,
  )
