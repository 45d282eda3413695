-- ===== src/Executors/Backup.antt =====
-- `execute` of executors/backup.py, forget.py and prune.py.
use dockkeep.Prelude.{
  ℕ, String, Bool, true, false, Option, none, some, List, [], ◌∷◌, if◌then◌else◌, is_empty, ◌==◌,
}
use dockkeep.Prelude.Dict
use dockkeep.Prelude.Dict.{Dict}
use dockkeep.Config.{BackupConfig}
use dockkeep.Effects.{Outside, Summary, Json, text, Outcome, M, pure, lift, ◌>>=◌}
use dockkeep.Executors.{run_subprocess}
use dockkeep.Executors.Restic.{resolve_env, ensure_repository}
use dockkeep.Executors.Commands.{build_backup_command, build_forget_command, build_prune_command}

-- `_summary_from_payload`: the snapshot's name must be a text that is not empty. The counters of the
-- summary are only logged.
abbrev pub named : Dict Json → Option Json → Option Summary
named payload (some (text id)) =
    if is_empty id then none else some (record { snapshot_id = id; raw = payload })
named payload _ = none

unfoldable pub summary_from_payload : Dict Json → Option Summary
summary_from_payload payload = named payload (Dict.lookup "snapshot_id" payload)

abbrev pub is_summary : Option Json → Bool
is_summary (some (text t)) = t == "summary"
is_summary _ = false

abbrev pub keep_new : Option Summary → Option Summary → Option Summary
keep_new old none = old
keep_new old (some s) = some s

-- `_capture_json_stdout`: one line of stdout, and the summary after it.
abbrev pub capture_object : Option Summary → Option (Dict Json) → Option Summary
capture_object old none = old
capture_object old (some payload) =
    if is_summary (Dict.lookup "message_type" payload)
    then keep_new old (summary_from_payload payload)
    else old

module _ (o : Outside) where
  unfoldable pub capture : Option Summary → List String → Option Summary
  unfolding summary_from_payload
  capture old [] = old
  capture old (line ∷ lines) = capture (capture_object old (o.json_object line)) lines

  unfoldable pub env_of : BackupConfig → Dict String
  unfolding resolve_env
  env_of config = resolve_env o.environ config.credentials.password config.credentials.password_file

  unfoldable pub run_backup_command :
      Bool → List String → Option ℕ → BackupConfig → Dict String → M (Bool × Option Summary)
  run_backup_command dry_run sources timeout config env = do
    command ← lift (build_backup_command dry_run sources config.repository config)
    (success, lines) ← run_subprocess o command (some env) timeout
    pure (success, capture none lines)

  -- `BackupExecutor.execute`, with the executor's `summary` beside the result.
  unfoldable pub execute_backup :
      Bool → List String → Option ℕ → BackupConfig → M (Bool × Option Summary)
  unfolding env_of run_backup_command
  execute_backup dry_run sources timeout config = do
    let env = env_of config
    ready ←
        (if config.execution.auto_init
          then ensure_repository o config.repository env timeout
          else pure true)
    if ready then run_backup_command dry_run sources timeout config env else pure (false, none)

  unfoldable pub run_plain : Outcome (List String) → Option ℕ → BackupConfig → M Bool
  run_plain built timeout config = do
    command ← lift built
    (success, _) ← run_subprocess o command (some (env_of config)) timeout
    pure success

  -- `ForgetExecutor.execute`
  unfoldable pub execute_forget : Bool → Option ℕ → BackupConfig → M Bool
  unfolding run_plain env_of
  execute_forget dry_run timeout config =
      run_plain (build_forget_command dry_run config.repository config) timeout config

  -- `PruneExecutor.execute`
  unfoldable pub execute_prune : Bool → Option ℕ → BackupConfig → M Bool
  unfolding run_plain env_of
  execute_prune dry_run timeout config =
      run_plain (build_prune_command dry_run config.repository config) timeout config
