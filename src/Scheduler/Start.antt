-- ===== src/Scheduler/Start.antt =====
-- `_run`, `_run_locked` and `_shutdown`.
use dockkeep.Prelude.{
  Bool, true, false, ℕ, zero, suc, String, Option, none, some, List, [], ◌∷◌, if◌then◌else◌, ◌<>◌,
}
use dockkeep.Scheduler.State.{
  Answer, answer, error, running, stopped, StatusError, StartState, started, scheduler_lock_error,
  unexpected_error, slept, locked, unlocked, socket_opened, socket_closed, runs_interrupted,
  manager_shut_down, Outside, State, act,
}
use dockkeep.Scheduler.Status.{write_status, notify_start_result}
use dockkeep.Scheduler.Tick.{tick}

abbrev pub scheduler_lock_start_attempts : ℕ
scheduler_lock_start_attempts = 3

-- The ticks of the loop until the stop event is set.
unfoldable pub run_ticks : Outside → List ℕ → State → State
unfolding tick
run_ticks o [] s = s
run_ticks o (now ∷ nows) s = run_ticks o nows (tick o now s)

-- Exceptions of the shutdown of the manager and of the socket are only logged.
unfoldable pub shutdown : State → State
unfolding write_status
shutdown s = write_status stopped none (act socket_closed (act manager_shut_down s))

-- The control server started, or it did not.
abbrev pub served : Outside → List ℕ → Answer (Unit {0}) → State → Answer StartState × State
served o nows (error e) s =
    let message = "Run-control socket unavailable: " <> e in
    let e1 : StatusError = record { code = "run_control_start_error"; message = message } in
    (
      answer unexpected_error,
      notify_start_result unexpected_error (some message)
          (write_status stopped (some e1) (act socket_closed s)),
    )
served o nows (answer _) s =
    let s1 = record (act socket_opened s) { start_time = some (o.clock s.trace) } in
    (
      answer started,
      shutdown (run_ticks o nows (notify_start_result started none (write_status running none s1))),
    )

-- An exception of the history leaves the method.
abbrev pub interrupted : Outside → List ℕ → Answer (Unit {0}) → State → Answer StartState × State
interrupted o nows (error e) s = (error e, s)
interrupted o nows (answer _) s =
    let s1 = act runs_interrupted s in served o nows (o.open_socket s1.trace) s1

unfoldable pub run_locked : Outside → List ℕ → State → Answer StartState × State
unfolding write_status notify_start_result run_ticks shutdown
run_locked o nows s =
    if s.persistent
    then interrupted o nows (o.interrupt s.trace) s
    else served o nows (o.open_socket s.trace) s

abbrev pub released : Answer StartState × State → Answer StartState × State
released (result, s) = (result, act unlocked s)

-- There is a pause between two attempts.
abbrev pub pause : ℕ → State → State
pause zero s = s
pause (suc n) s = act slept s

-- `str(last_error)`
abbrev lock_message : Option String → String
lock_message none = "Scheduler lock is already held"
lock_message (some path) = "Scheduler is already running (lock: " <> (path <> ")")

-- An attempt with the lock, or after a Timeout; another exception leaves the method.
abbrev pub tried :
    Answer Bool
    → Answer StartState × State
    → Answer StartState × State
    → State
    → Answer StartState × State
tried (answer true) inside later s = inside
tried (answer false) inside later s = later
tried (error e) inside later s = (error e, s)

pub tried-holds :
    (P : Answer StartState × State → Type 0) (a : Answer Bool) (x y : Answer StartState × State)
    (s : State)
    → P x
    → P y
    → ((e : String) → P (error e, s))
    → P (tried a x y s)
tried-holds P (answer true) x y s hx hy he = hx
tried-holds P (answer false) x y s hx hy he = hy
tried-holds P (error e) x y s hx hy he = he e

-- The attempts that are left, and the lock file of the last one that failed.
unfoldable pub attempts : Outside → List ℕ → ℕ → Option String → State → Answer StartState × State
unfolding run_locked notify_start_result
attempts o nows zero last_error s = (
  answer scheduler_lock_error,
  notify_start_result scheduler_lock_error (some (lock_message last_error)) s,
)
attempts o nows (suc left) last_error s =
    let later = attempts o nows left (some s.lock_path) (pause left s) in
    tried (o.lock s.trace) (released (run_locked o nows (act locked s))) later s

unfoldable pub run : Outside → List ℕ → State → Answer StartState × State
unfolding attempts
run o nows s = attempts o nows scheduler_lock_start_attempts none s
