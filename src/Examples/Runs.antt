-- ===== src/Examples/Runs.antt =====
-- Runs of the job of the test data, one for each theorem about runs and locks.
use dockkeep.Prelude.{◌≡◌, refl, some, [], ◌∷◌, split_on}
use dockkeep.Prelude.Dict
use dockkeep.Effects.{Outside}
use dockkeep.Effects.Since.{Since-refl}
use dockkeep.Locking.{acquire_with_retry}
use dockkeep.Locking.Held.{Taken, acquire_with_retry-Taken}
use dockkeep.Runner.Run
use dockkeep.Runner.Safety.{
  Exclusive, run_backup-Exclusive, run_step-Exclusive, run_workflow-Exclusive,
}
use dockkeep.Runner.DryRun.{Harmless, dry_run-Harmless}
use dockkeep.Runner.Errors.{Ends, found_error, run-Ends}
use dockkeep.Examples.{calm, job, settings, dry_settings, start, files}

run_workflow-Exclusive_example :
    Exclusive settings
      (Run.workflow_resources job
        (Run.resolve_at calm settings [])
        ("backup.files" ∷ "rclone.mirror" ∷ []))
      start
      (Run.run_workflow calm settings "all" start).1
unfolding Run.workflow_resources Dict.lookup
run_workflow-Exclusive_example = run_workflow-Exclusive calm settings "all" start

run_backup-Exclusive_example :
    Exclusive settings
      (Run.repository_of (Run.resolve_at calm settings []) (some files))
      start
      (Run.run_backup calm settings "files" start).1
unfolding Dict.lookup
run_backup-Exclusive_example = run_backup-Exclusive calm settings "files" start

run_step-Exclusive_example :
    Exclusive settings
      (Run.step_resources job
        (Run.resolve_at calm settings [])
        ("backup" ∷ "files" ∷ "retention" ∷ []))
      start
      (Run.run_step calm settings "backup.files.retention" start).1
unfolding split_on
run_step-Exclusive_example = run_step-Exclusive calm settings "backup.files.retention" start

dry_run-Harmless_example :
    Harmless calm dry_settings refl start (Run.run_backup calm dry_settings "all" start).1
    × Harmless calm dry_settings refl start (Run.run_step calm dry_settings "all" start).1
    × Harmless calm dry_settings refl start (Run.run_workflow calm dry_settings "all" start).1
dry_run-Harmless_example = dry_run-Harmless calm dry_settings refl "all" start

acquire_with_retry-Taken_example :
    Taken
      (λ p held. held ≡ [])
      []
      ("/locks/b" ∷ "/locks/a" ∷ [])
      []
      (acquire_with_retry calm 2 (some 5) ("/locks/a" ∷ "/locks/b" ∷ []) start)
acquire_with_retry-Taken_example =
    acquire_with_retry-Taken (λ p held. held ≡ []) [] calm 2 (some 5) ("/locks/a" ∷ "/locks/b" ∷ [])
      [] start (record { holds = refl; since = Since-refl })

-- A loop of links below the repository of the backup.
abbrev looped : Outside
looped = record calm { resolve_error = λ t path. some "Symlink loop" }

run-Ends_example :
    Ends
      (Run.repository_error (looped.resolve_error []) (Dict.lookup "files" job.backup))
      (Run.run_backup looped settings "files" start).0
    × Ends
        (Run.step_error job (looped.resolve_error []) (split_on "." "files"))
        (Run.run_step looped settings "files" start).0
    × Ends
        (found_error looped settings (Dict.lookup "files" job.workflows) start)
        (Run.run_workflow looped settings "files" start).0
run-Ends_example = run-Ends looped settings "files" start
