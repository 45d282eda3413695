-- ===== src/Executors/Hooks.antt =====
-- executors/hooks.py: hooks are scripts under the scripts directory, or inline commands if these
-- are allowed.
use dockkeep.Prelude.{
  ℕ, String, Bool, true, false, not, ◌&&◌, ◌||◌, Option, none, some, List, [], ◌∷◌, ◌==◌, ◌<>◌,
  if◌then◌else◌, is_empty, strip, starts_with, equals_lower,
}
use dockkeep.Prelude.Dict
use dockkeep.Shlex.{shlex_split}
use dockkeep.Effects.{Outside, Trace, M, pure, look, start_process, ◌>>=◌}
use dockkeep.Executors.{settle}

-- What `_resolve_script_command` returns: an error, no script (so an inline command), or the argv of
-- a script.
pub data Resolved : Type 0 where
  script_error inline : Resolved
  script : List String → Resolved

-- `Path.is_absolute`
unfoldable pub is_absolute : String → Bool
is_absolute path = starts_with "/" path

-- `_is_inside_scripts_dir`: the directory itself, or one of the parents of a resolved path.
unfoldable pub is_inside : String → String → Bool
is_inside dir path = path == dir || starts_with (if dir == "/" then dir else dir <> "/") path

-- `resolved_dir` is `_resolved_scripts_dir`.
module _ (o : Outside) (scripts_dir resolved_dir : String) where
  -- `_validate_script_path`, at a resolved path.
  unfoldable pub validate_script_path : Trace → String → Bool
  validate_script_path t path =
      let facts = o.path_facts t path in
      is_inside resolved_dir path && (facts.exists && (facts.is_file && facts.executable))

  abbrev pub checked : Trace → String → List String → Resolved
  checked t path args = if validate_script_path t path then script (path ∷ args) else script_error

  abbrev pub resolve_tokens : Trace → Option (List String) → Resolved
  resolve_tokens t none = script_error
  resolve_tokens t (some []) = inline
  resolve_tokens t (some (head ∷ args)) =
      if is_absolute (o.expanduser head)
      then checked t (o.resolve t (o.expanduser head)) args
      else inline

  unfoldable pub resolve_script_command : Trace → String → Resolved
  unfolding validate_script_path
  resolve_script_command t cmd =
      let stripped = strip cmd in
      let full = o.expanduser stripped in
      let full_resolved = o.resolve t full in
      if is_empty stripped
      then inline
      else if is_absolute full && (o.path_facts t full_resolved).exists
      then checked t full_resolved []
      else resolve_tokens t (shlex_split stripped)

  abbrev pub allows : Option String → Bool
  allows none = false
  allows (some v) = equals_lower "true" v

  unfoldable pub inline_allowed : Bool
  inline_allowed = allows (Dict.lookup "DK_ALLOW_INLINE_HOOKS" o.environ)

  unfoldable pub run_args : List String → Option ℕ → M Bool
  unfolding settle
  run_args args timeout = do
    facts ← look o (λ t. o.path_facts t resolved_dir)
    if facts.exists && facts.is_dir
        then (do
          result ←
              start_process o
                (record { argv = args; env = none; cwd = some scripts_dir; timeout = timeout })
          settle result.ending)
        else pure false

  abbrev pub run_resolved : String → Option ℕ → Resolved → M Bool
  run_resolved cmd timeout script_error = pure false
  run_resolved cmd timeout inline =
      if inline_allowed && not (is_empty (strip cmd))
      then run_args ("/bin/sh" ∷ "-c" ∷ cmd ∷ []) timeout
      else pure false
  run_resolved cmd timeout (script argv) = run_args argv timeout

  -- `_run_single`
  unfoldable pub run_single : Option ℕ → String → M Bool
  unfolding run_args resolve_script_command inline_allowed
  run_single timeout cmd = do
    resolved ← look o (λ t. resolve_script_command t cmd)
    run_resolved cmd timeout resolved

  -- `run`: the hooks in turn, up to the first that fails.
  unfoldable pub run : Option ℕ → List String → M Bool
  run timeout [] = pure true
  run timeout (hook ∷ hooks) = do
    success ← run_single timeout hook
    if success then run timeout hooks else pure false

-- `HookExecutor.__init__`, which resolves the scripts directory once, and then `run`.
unfoldable pub run_executor : Outside → String → Option ℕ → List String → M Bool
unfolding run
run_executor o scripts_dir timeout hooks = do
  resolved_dir ← look o (λ t. o.resolve t scripts_dir)
  run o scripts_dir resolved_dir timeout hooks
