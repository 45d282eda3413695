-- ===== src/Scheduler/Buffer.antt =====
-- The reports of a scheduler without a run history, over its whole life: ticks, and ends of runs at
-- any time between them.
use dockkeep.Prelude.{
  ℕ, ◌≡◌, refl, Bool, true, false≢true, if-same, if-holds, String, Option, none, some, List, [],
  ◌∷◌,
}
use dockkeep.Config.{AppConfig}
use dockkeep.Notifications.Events.{RunRecord, ReportEvent}
use dockkeep.Scheduler.State.{
  Answer, answer, error, Action, task_started, status_written, logs_cleaned, report_built, slept,
  locked, unlocked, socket_opened, socket_closed, runs_interrupted, manager_shut_down, start_result,
  Trace, Outside, State, act, Task, Step, Activity, running, StatusError,
}
use dockkeep.Scheduler.Status.{
  write_status, record_reload_error, loaded, reload_at, reload_if_changed,
}
use dockkeep.Scheduler.Tasks.{Entry, start_task, begun, chain, scheduled, start_due}
use dockkeep.Scheduler.Tick.{cleanup_after, cleaned}
use dockkeep.Scheduler.Keeps.{is_quiet}

-- The fields that the reports are made from.
abbrev pub Desk : Type 0
Desk = List RunRecord × (Option ℕ × (Option ℕ × Bool))

abbrev pub desk : State → Desk
desk s = (s.report_buffer, (s.last_report_window_end, (s.start_time, s.persistent)))

-- The reports, the latest first.
unfoldable pub reports_of : Trace → List ReportEvent
reports_of [] = []
reports_of (report_built e ∷ t) = e ∷ reports_of t
reports_of (_ ∷ t) = reports_of t

pub keep-reports :
    (es : List ReportEvent) (a : Action) (t : Trace)
    → is_quiet a ≡ true
    → reports_of t ≡ es
    → reports_of (a ∷ t) ≡ es
unfolding reports_of
keep-reports es locked t q i = i
keep-reports es unlocked t q i = i
keep-reports es slept t q i = i
keep-reports es (start_result r m) t q i = i
keep-reports es (task_started x) t q i = i
keep-reports es (status_written x e) t q i = i
keep-reports es (logs_cleaned n) t q i = i
keep-reports es (report_built e) t q i = absurd (false≢true q)
keep-reports es socket_opened t q i = i
keep-reports es socket_closed t q i = i
keep-reports es runs_interrupted t q i = i
keep-reports es manager_shut_down t q i = i

pub starts-reports :
    (es : List ReportEvent) (x : Task) (t : Trace)
    → reports_of t ≡ es
    → reports_of (task_started x ∷ t) ≡ es
unfolding reports_of
starts-reports es x t i = i

pub write_status-desk :
    (a : Activity) (e : Option StatusError) (s : State) → desk (write_status a e s) ≡ desk s
unfolding write_status
write_status-desk a e s = if-same desk s.has_status_writer _ s refl

record_reload_error-desk : (e : String) (s : State) → desk (record_reload_error e s) ≡ desk s
unfolding record_reload_error
record_reload_error-desk e s =
    let shown : StatusError = record { code = "reload_config_error"; message = e } in
    write_status-desk running (some shown) (record s { reload_error = some shown })

loaded-desk :
    (m : ℕ) (d : Option String) (r : Answer AppConfig) (s : State) → desk (loaded m d r s) ≡ desk s
unfolding loaded
loaded-desk m d (answer config) s =
    write_status-desk running none
      (record s { config_mtime = some m; config_digest = d; config = config; reload_error = none })
loaded-desk m d (error e) s =
    record_reload_error-desk e (record s { config_mtime = some m; config_digest = d })

module _ (o : Outside) where
  reload_at-desk : (r : Answer ℕ) (s : State) → desk (reload_at o r s) ≡ desk s
  unfolding reload_at
  reload_at-desk (error e) s =
      record_reload_error-desk e (record s { config_mtime = none; config_digest = none })
  reload_at-desk (answer m) s =
      if-holds (λ x. desk x ≡ desk s) _ s (loaded m (o.digest s.trace) (o.load s.trace) s) refl
        (loaded-desk m (o.digest s.trace) (o.load s.trace) s)

  pub reload_if_changed-desk : (s : State) → desk (reload_if_changed o s) ≡ desk s
  unfolding reload_if_changed
  reload_if_changed-desk s =
      if-holds (λ x. desk x ≡ desk s) s.has_config_path (reload_at o (o.stat s.trace) s) s
        (reload_at-desk (o.stat s.trace) s) refl

  begun-desk :
      (t : Task) (a : Answer (Unit {0})) (s : State) (next : Step)
      → ((s1 : State) → desk (next s1).1 ≡ desk s1)
      → desk (chain (begun t a s) next).1 ≡ desk s
  begun-desk t (error e) s next k = refl
  begun-desk t (answer _) s next k = k (act (task_started t) s)

  pub start_due-desk :
      (due : String → Bool) (es : List Entry) (s : State) → desk (start_due o due es s).1 ≡ desk s
  unfolding start_due start_task
  start_due-desk due [] s = refl
  start_due-desk due (e ∷ es) s =
      if-holds (λ r. desk r.1 ≡ desk s) (scheduled due e.schedule)
        (chain (start_task o e s) (start_due o due es)) (start_due o due es s)
        (begun-desk _ (o.start s.trace _) s (start_due o due es) (start_due-desk due es))
        (start_due-desk due es s)

  cleaned-desk : (n : ℕ) (a : Answer ℕ) (s : State) → desk (cleaned n a s) ≡ desk s
  cleaned-desk n (answer k) s = refl
  cleaned-desk n (error e) s = refl

  pub cleanup_after-desk :
      (n : Option ℕ) (now : ℕ) (s : State) → desk (cleanup_after o n now s) ≡ desk s
  cleanup_after-desk none now s = refl
  cleanup_after-desk (some n) now s =
      let s1 = record s { last_log_cleanup_day = some (o.day_of now) } in
      if-holds (λ x. desk x ≡ desk s) _ s (cleaned n (o.cleanup s.trace n) s1) refl
        (cleaned-desk n (o.cleanup s.trace n) s1)
