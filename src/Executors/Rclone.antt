-- ===== src/Executors/Rclone.antt =====
-- executors/rclone.py, with the check of the remote in utils/rclone.py.
use dockkeep.Prelude.{
  ℕ, zero, String, Bool, true, false, Option, none, some, List, [], ◌∷◌, if◌then◌else◌, is_empty,
  partition, strip, strip_last, contains,
}
use dockkeep.Config.{RcloneTaskConfig}
use dockkeep.Effects.{
  Outside, DirState, has_entries, Ending, exit, interrupted, crash, cancelled, failure, M, pure,
  raise, lift, look, start_process, ◌>>=◌,
}
use dockkeep.Executors.{run_subprocess}
use dockkeep.Executors.Commands.{build_rclone_command}

-- `parse_remote_name`; `none` is its ValueError.
abbrev pub before_colon : Option (String × String) → Option String
before_colon none = none
before_colon (some (remote, path)) = some remote

unfoldable pub parse_remote_name : String → Option String
parse_remote_name remote = before_colon (partition ":" remote)

-- `_parse_list_remotes_output`, over the lines of the output.
abbrev pub remote_line : String → Option String → List String → List String
remote_line line (some name) rest = name ∷ rest
remote_line line none rest = if is_empty line then rest else line ∷ rest

unfoldable pub parse_list_remotes_output : List String → List String
parse_list_remotes_output [] = []
parse_list_remotes_output (line ∷ lines) =
    remote_line (strip line) (strip_last ":" (strip line)) (parse_list_remotes_output lines)

-- No remotes if the listing fails.
abbrev pub listed : List String → Ending → M (List String)
listed lines (exit zero) = pure (parse_list_remotes_output lines)
listed lines interrupted = raise cancelled
listed lines (crash e) = raise (failure e)
listed lines _ = pure []

abbrev pub safe_state : DirState → Bool
safe_state has_entries = true
safe_state _ = false

module _ (o : Outside) where
  unfoldable pub list_remotes : Option ℕ → M (List String)
  list_remotes timeout = do
    result ←
        start_process o (record {
          argv = "rclone" ∷ "listremotes" ∷ [];
          env = none;
          cwd = none;
          timeout = timeout;
        })
    listed result.lines result.ending

  abbrev pub check_named : Option String → Option ℕ → M Bool
  check_named none timeout = pure false
  check_named (some name) timeout = do
    configured ← list_remotes timeout
    pure (contains configured name)

  unfoldable pub check_remote : String → Option ℕ → M Bool
  unfolding list_remotes
  check_remote remote timeout = check_named (parse_remote_name remote) timeout

  -- `_source_is_safe_for_sync`
  unfoldable pub source_is_safe_for_sync : String → M Bool
  source_is_safe_for_sync source = do
    state ← look o (λ t. o.source_dir t source)
    pure (safe_state state)

  unfoldable pub run_rclone_command : Bool → Option ℕ → RcloneTaskConfig → M Bool
  run_rclone_command dry_run timeout config = do
    command ← lift (build_rclone_command dry_run config)
    (success, _) ← run_subprocess o command none timeout
    pure success

  abbrev pub guard_sync : Option Bool → String → M Bool
  guard_sync (some true) source = source_is_safe_for_sync source
  guard_sync _ source = pure true

  -- `RcloneExecutor.execute`
  unfoldable pub execute_rclone : Bool → Option ℕ → RcloneTaskConfig → M Bool
  unfolding run_rclone_command
  execute_rclone dry_run timeout config = do
    known ← check_remote config.target timeout
    if known
        then (do
          safe ← guard_sync config.sync_delete config.source
          if safe then run_rclone_command dry_run timeout config else pure false)
        else pure false
