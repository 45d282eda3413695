-- ===== src/Examples/Executions.antt =====
-- Hooks, syncs and environments, one example for each theorem about the executors, and the history
-- of a run.
use dockkeep.Prelude.{◌≡◌, refl, false, none, some, [], ◌∷◌}
use dockkeep.Prelude.Dict
use dockkeep.Effects.{Outside, empty_dir}
use dockkeep.Effects.Since.{Since}
use dockkeep.Effects.Fails.{Fails}
use dockkeep.Executors.Hooks
use dockkeep.Executors.Confined.{Hooked, run_executor-Hooked}
use dockkeep.Executors.Rclone.{execute_rclone}
use dockkeep.Executors.Guard.{execute_rclone-guard_sync}
use dockkeep.Executors.Restic.{resolve_env}
use dockkeep.Executors.Environment.{lookup-resolve_env}
use dockkeep.Runner.Run
use dockkeep.Examples.{calm, mirror, start}

run_executor-Hooked_example :
    Hooked calm "/scripts"
      (calm.resolve start.trace "/scripts")
      start.trace
      (Hooks.run_executor calm "/scripts" none ("/scripts/a.sh x" ∷ []) start).1.trace
run_executor-Hooked_example =
    run_executor-Hooked calm "/scripts" none ("/scripts/a.sh x" ∷ []) start

abbrev emptied : Outside
emptied = record calm { source_dir = λ t path. empty_dir }

execute_rclone-guard_sync_example :
    Since
      (λ p held. p.argv ≡ "rclone" ∷ "listremotes" ∷ [])
      []
      (execute_rclone emptied false none mirror start).1.trace
    × Fails (execute_rclone emptied false none mirror start).0
execute_rclone-guard_sync_example =
    execute_rclone-guard_sync emptied mirror (λ t. refl) false none start refl

lookup-resolve_env_example :
    Dict.lookup "RESTIC_PASSWORD_COMMAND" (resolve_env calm.environ (some "secret") none) ≡ none
lookup-resolve_env_example =
    lookup-resolve_env calm.environ (some "secret") none "RESTIC_PASSWORD_COMMAND"
