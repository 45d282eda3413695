-- ===== src/Scheduler/Told.antt =====
-- How often the scheduler reports its start (`_notify_start_result`).
use dockkeep.Prelude.{
  ℕ, zero, suc, ◌≡◌, ap, ◌∙◌, true, false, false≢true, if-holds, String, Option, none, some, List,
  [], ◌∷◌, if◌then◌else◌,
}
use dockkeep.Scheduler.State.{
  Answer, answer, error, Action, task_started, status_written, logs_cleaned, report_built, slept,
  locked, unlocked, socket_opened, socket_closed, runs_interrupted, manager_shut_down, start_result,
  Trace, Outside, State, act, Activity, running, stopped, StatusError, StartState, started,
  scheduler_lock_error, unexpected_error,
}
use dockkeep.Scheduler.Status.{write_status, notify_start_result}
use dockkeep.Scheduler.Keeps.{is_quiet, run_ticks-On, shutdown-On}
use dockkeep.Scheduler.Start.{
  scheduler_lock_start_attempts, run_ticks, served, interrupted, run_locked, attempts, released,
  tried-holds, pause, run,
}

-- What the callback was told, the latest first.
abbrev pub results : Trace → List StartState
results [] = []
results (start_result r m ∷ t) = r ∷ results t
results (_ ∷ t) = results t

-- The callback was told what was returned, and nothing else.
abbrev pub Reports : Answer StartState → Trace → Type 0
Reports (answer r) t = results t ≡ r ∷ []
Reports (error e) t = results t ≡ []

-- Nothing was told, and there is a callback to tell.
abbrev pub IsUntold : State → Type 0
IsUntold s = (results s.trace ≡ []) × (s.has_start_callback ≡ true)

keep-results :
    (rs : List StartState) (a : Action) (t : Trace)
    → is_quiet a ≡ true
    → results t ≡ rs
    → results (a ∷ t) ≡ rs
keep-results rs locked t q i = i
keep-results rs unlocked t q i = i
keep-results rs slept t q i = i
keep-results rs (start_result r m) t q i = absurd (false≢true q)
keep-results rs (task_started x) t q i = absurd (false≢true q)
keep-results rs (status_written x e) t q i = i
keep-results rs (logs_cleaned n) t q i = i
keep-results rs (report_built e) t q i = absurd (false≢true q)
keep-results rs socket_opened t q i = i
keep-results rs socket_closed t q i = i
keep-results rs runs_interrupted t q i = i
keep-results rs manager_shut_down t q i = i

notify-results :
    (r : StartState) (m : Option String) (s : State)
    → IsUntold s
    → results (notify_start_result r m s).trace ≡ r ∷ []
unfolding notify_start_result
notify-results r m s u =
    ap
      (λ b.
        results
          (if b then act (start_result r m) (record s { has_start_callback = false }) else s).trace)
      u.1
    ∙ ap (◌∷◌ r) u.0

module _ (o : Outside) (nows : List ℕ) where
  write-IsUntold :
      (a : Activity) (e : Option StatusError) (s : State)
      → IsUntold s
      → IsUntold (write_status a e s)
  unfolding write_status
  write-IsUntold a e s u = if-holds IsUntold s.has_status_writer _ s u u

  served-Reports :
      (r : Answer (Unit {0})) (s : State)
      → IsUntold s
      → Reports (served o nows r s).0 (served o nows r s).1.trace
  served-Reports (error e) s u =
      notify-results unexpected_error _ (write_status stopped _ (act socket_closed s))
        (write-IsUntold stopped _ (act socket_closed s) u)
  served-Reports (answer _) s u =
      let s1 = record (act socket_opened s) { start_time = some (o.clock s.trace) } in
      let s2 = write_status running none s1 in
      let s3 = notify_start_result started none s2 in
      let keep = keep-results (started ∷ []) in
      let Q : Trace → Type 0 = λ t. results t ≡ started ∷ [] in
      shutdown-On o Q keep (run_ticks o nows s3) (
        run_ticks-On o Q keep (λ x t h. h) (λ e t h. h) nows s3
          (notify-results started none s2 (write-IsUntold running none s1 u)))

  interrupted-Reports :
      (r : Answer (Unit {0})) (s : State)
      → IsUntold s
      → Reports (interrupted o nows r s).0 (interrupted o nows r s).1.trace
  interrupted-Reports (error e) s u = u.0
  interrupted-Reports (answer _) s u =
      let s1 = act runs_interrupted s in served-Reports (o.open_socket s1.trace) s1 u

  Of : Answer StartState × State → Type 0
  Of x = Reports x.0 x.1.trace

  run_locked-Reports : (s : State) → IsUntold s → Of (run_locked o nows s)
  unfolding run_locked Of
  run_locked-Reports s u =
      if-holds Of s.persistent (interrupted o nows (o.interrupt s.trace) s)
        (served o nows (o.open_socket s.trace) s) (interrupted-Reports (o.interrupt s.trace) s u)
        (served-Reports (o.open_socket s.trace) s u)

  released-Reports : (x : Answer StartState × State) → Of x → Of (released x)
  unfolding Of
  released-Reports (answer r, s) h = h
  released-Reports (error e, s) h = h

  paused : (left : ℕ) (s : State) → IsUntold s → IsUntold (pause left s)
  paused zero s u = u
  paused (suc left) s u = u

  attempts-Reports :
      (left : ℕ) (last : Option String) (s : State) → IsUntold s → Of (attempts o nows left last s)
  unfolding attempts Of
  attempts-Reports zero last s u = notify-results scheduler_lock_error _ s u
  attempts-Reports (suc left) last s u =
      let s1 = act locked s in
      tried-holds Of (o.lock s.trace) (released (run_locked o nows s1))
        (attempts o nows left (some s.lock_path) (pause left s)) s
        (released-Reports (run_locked o nows s1) (run_locked-Reports s1 u))
        (attempts-Reports left (some s.lock_path) (pause left s) (paused left s u)) (λ e. u.0)

  -- If the scheduler returns a state, the callback of its owner was called exactly once and with this
  -- state; if it raises an exception, of the run history or of the lock file, it was not called.
  pub run-Reports : (s : State) → IsUntold s → Reports (run o nows s).0 (run o nows s).1.trace
  unfolding run Of
  run-Reports s u = attempts-Reports scheduler_lock_start_attempts none s u
