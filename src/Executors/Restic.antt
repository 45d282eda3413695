-- ===== src/Executors/Restic.antt =====
-- utils/restic.py: the environment of a restic process, and the check or creation of a repository.
use dockkeep.Prelude.{
  ℕ, zero, suc, String, Bool, true, false, Option, none, some, List, [], ◌∷◌, if◌then◌else◌,
}
use dockkeep.Prelude.Dict
use dockkeep.Prelude.Dict.{Dict}
use dockkeep.Effects.{
  Outside, Ending, exit, signal, timed_out, interrupted, not_found, os_error, crash, cancelled,
  failure, M, pure, raise, ◌>>=◌, start_process,
}

abbrev pub set_opt : String → Option String → Dict String → Dict String
set_opt k none env = env
set_opt k (some v) env = Dict.insert k v env

unfoldable pub resolve_env : Dict String → Option String → Option String → Dict String
resolve_env environ password password_file =
    let env = Dict.erase "RESTIC_PASSWORD" environ in
    let env = Dict.erase "RESTIC_PASSWORD_FILE" env in
    let env = Dict.erase "RESTIC_PASSWORD_COMMAND" env in
    let env = set_opt "RESTIC_PASSWORD" password env in
    set_opt "RESTIC_PASSWORD_FILE" password_file env

-- The `try` around `run_command`, for the check and for init.
unfoldable pub settle_command : Ending → M Bool
settle_command (exit zero) = pure true
settle_command (exit (suc n)) = pure false
settle_command (signal n) = pure false
settle_command timed_out = pure false
settle_command interrupted = raise cancelled
settle_command not_found = pure false
settle_command (os_error e) = pure false
settle_command (crash e) = raise (failure e)

module _ (o : Outside) where
  unfoldable pub restic_command : List String → Dict String → Option ℕ → M Bool
  unfolding settle_command
  restic_command argv env timeout = do
    result ← start_process o (record { argv = argv; env = some env; cwd = none; timeout = timeout })
    settle_command result.ending

  unfoldable pub check_repository : String → Dict String → Option ℕ → M Bool
  unfolding restic_command
  check_repository repository env timeout =
      restic_command ("restic" ∷ "--repo" ∷ repository ∷ "cat" ∷ "config" ∷ []) env timeout

  unfoldable pub init_repository : String → Dict String → Option ℕ → M Bool
  unfolding restic_command
  init_repository repository env timeout =
      restic_command ("restic" ∷ "--repo" ∷ repository ∷ "init" ∷ []) env timeout

  unfoldable pub ensure_repository : String → Dict String → Option ℕ → M Bool
  unfolding check_repository init_repository
  ensure_repository repository env timeout = do
    ready ← check_repository repository env timeout
    if ready then pure true else init_repository repository env timeout
