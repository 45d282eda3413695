-- ===== src/Executors.antt =====
-- executors/base.py: what the executors share, running a command and reading extra arguments.
pub mod Restic
pub mod Commands
pub mod Backup
pub mod Rclone
pub mod Hooks
pub mod Frame
pub mod Guard
pub mod Environment
pub mod Confined
use dockkeep.Prelude.{
  ℕ, zero, suc, String, Bool, true, false, Option, none, some, List, [], ◌∷◌, ◌++◌,
}
use dockkeep.Prelude.Dict.{Dict}
use dockkeep.Shlex.{shlex_split}
use dockkeep.Effects.{
  Outside, Exn, Outcome, ok, raised, cancelled, value_error, failure, Process, ProcessRun, Ending,
  exit, signal, timed_out, interrupted, not_found, os_error, crash, M, pure, raise, ◌>>=◌,
  start_process,
}

-- `_normalize_extra_args`; shlex raises ValueError at an unmatched quote
abbrev add_tokens : Option (List String) → Outcome (List String) → Outcome (List String)
add_tokens none rest = raised (value_error "shlex")
add_tokens (some ts) (ok rest) = ok (ts ++ rest)
add_tokens (some ts) (raised e) = raised e

unfoldable pub normalize_extra_args : List String → Outcome (List String)
normalize_extra_args [] = ok []
normalize_extra_args (a ∷ args) = add_tokens (shlex_split a) (normalize_extra_args args)

-- The `try` of `run_subprocess` around `stream_command`: cancellation and other exceptions pass
-- through, a timeout and a start that fails are a plain failure, and so is a code other than 0.
unfoldable pub settle : Ending → M Bool
settle (exit zero) = pure true
settle (exit (suc n)) = pure false
settle (signal n) = pure false
settle timed_out = pure false
settle interrupted = raise cancelled
settle not_found = pure false
settle (os_error e) = pure false
settle (crash e) = raise (failure e)

module _ (o : Outside) where
  -- Besides the result, the lines that the interceptor of stdout has seen.
  unfoldable pub run_subprocess :
      List String → Option (Dict String) → Option ℕ → M (Bool × List String)
  unfolding settle
  run_subprocess command env timeout = do
    result ← start_process o (record { argv = command; env = env; cwd = none; timeout = timeout })
    success ← settle result.ending
    pure (success, result.lines)
