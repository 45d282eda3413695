-- ===== src/Scheduler/Waits.antt =====
-- How often the scheduler waits for its lock.
use dockkeep.Prelude.{
  ℕ, zero, suc, ◌+◌, ◌-◌, ◌≤◌, ◌≡◌, true, false≢true, if-holds, String, Option, none, some, List,
  [], ◌∷◌, arith,
}
use dockkeep.Scheduler.State.{
  Answer, answer, error, Action, task_started, status_written, logs_cleaned, report_built, slept,
  locked, unlocked, socket_opened, socket_closed, runs_interrupted, manager_shut_down, start_result,
  Trace, Outside, State, act, running, stopped, StartState, started, scheduler_lock_error,
  unexpected_error,
}
use dockkeep.Scheduler.Status.{write_status, notify_start_result}
use dockkeep.Scheduler.Keeps.{is_quiet, write_status-On, run_ticks-On, shutdown-On}
use dockkeep.Scheduler.Start.{
  scheduler_lock_start_attempts, run_ticks, served, interrupted, run_locked, attempts, released,
  tried-holds, pause, run,
}

-- The pauses between two attempts.
abbrev pub waits : Trace → ℕ
waits [] = 0
waits (slept ∷ t) = suc (waits t)
waits (_ ∷ t) = waits t

module _ (n : ℕ) where
  abbrev Waited : Trace → Type 0
  Waited t = waits t ≤ n

  keep-Waited : (a : Action) (t : Trace) → is_quiet a ≡ true → Waited t → Waited (a ∷ t)
  keep-Waited locked t q i = i
  keep-Waited unlocked t q i = i
  keep-Waited slept t q i = absurd (false≢true q)
  keep-Waited (start_result r m) t q i = i
  keep-Waited (task_started x) t q i = i
  keep-Waited (status_written x e) t q i = i
  keep-Waited (logs_cleaned k) t q i = i
  keep-Waited (report_built e) t q i = i
  keep-Waited socket_opened t q i = i
  keep-Waited socket_closed t q i = i
  keep-Waited runs_interrupted t q i = i
  keep-Waited manager_shut_down t q i = i

  told-Waited :
      (r : StartState) (m : Option String) (s : State)
      → Waited s.trace
      → Waited (notify_start_result r m s).trace
  unfolding notify_start_result
  told-Waited r m s i = if-holds (λ x. Waited x.trace) s.has_start_callback _ s i i

  module _ (o : Outside) (nows : List ℕ) where
    served-Waited :
        (r : Answer (Unit {0})) (s : State) → Waited s.trace → Waited (served o nows r s).1.trace
    served-Waited (error e) s i =
        told-Waited unexpected_error _ (write_status stopped _ (act socket_closed s))
          (write_status-On o Waited keep-Waited stopped _ (act socket_closed s) i)
    served-Waited (answer _) s i =
        let s1 = record (act socket_opened s) { start_time = some (o.clock s.trace) } in
        let s2 = write_status running none s1 in
        let s3 = notify_start_result started none s2 in
        shutdown-On o Waited keep-Waited (run_ticks o nows s3) (
          run_ticks-On o Waited keep-Waited (λ x t h. h) (λ e t h. h) nows s3
            (told-Waited started none s2 (write_status-On o Waited keep-Waited running none s1 i)))

    interrupted-Waited :
        (r : Answer (Unit {0})) (s : State)
        → Waited s.trace
        → Waited (interrupted o nows r s).1.trace
    interrupted-Waited (error e) s i = i
    interrupted-Waited (answer _) s i =
        let s1 = act runs_interrupted s in served-Waited (o.open_socket s1.trace) s1 i

    run_locked-Waited : (s : State) → Waited s.trace → Waited (run_locked o nows s).1.trace
    unfolding run_locked
    run_locked-Waited s i =
        if-holds (λ x. Waited x.1.trace) s.persistent (interrupted o nows (o.interrupt s.trace) s)
          (served o nows (o.open_socket s.trace) s) (interrupted-Waited (o.interrupt s.trace) s i)
          (served-Waited (o.open_socket s.trace) s i)

paused :
    (left n : ℕ) (s : State)
    → waits s.trace + left ≤ n
    → waits (pause left s).trace + (left - 1) ≤ n
paused zero n s h = omega (arith, h)
paused (suc left) n s h = omega (arith, h)

module _ (o : Outside) (nows : List ℕ) where
  attempts-Waited :
      (n left : ℕ) (last : Option String) (s : State)
      → waits s.trace + (left - 1) ≤ n
      → waits (attempts o nows left last s).1.trace ≤ n
  unfolding attempts
  attempts-Waited n zero last s h = told-Waited n scheduler_lock_error _ s (omega (arith, h))
  attempts-Waited n (suc left) last s h =
      tried-holds (λ x. waits x.1.trace ≤ n) (o.lock s.trace)
        (released (run_locked o nows (act locked s)))
        (attempts o nows left (some s.lock_path) (pause left s)) s
        (run_locked-Waited n o nows (act locked s) (omega (arith, h)))
        (attempts-Waited n left (some s.lock_path) (pause left s)
          (paused left n s (omega (arith, h))))
        (λ e. omega (arith, h))

  -- The scheduler waits at most twice for its lock, whoever holds it and for how long.
  pub run-waits : (s : State) → waits (run o nows s).1.trace ≤ waits s.trace + 2
  unfolding run
  run-waits s =
      attempts-Waited (waits s.trace + 2) scheduler_lock_start_attempts none s (omega arith)
