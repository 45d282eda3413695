-- ===== src/Scheduler/Keeps.antt =====
-- What the ticks of the main loop keep: a property of what has happened that the actions of a tick
-- preserve.
use dockkeep.Prelude.{
  ℕ, ◌≡◌, refl, String, Bool, true, false, Option, none, some, List, [], ◌∷◌, if◌then◌else◌,
  if-holds, is_empty,
}
use dockkeep.Notifications.Events.{RunRecord, ReportEvent}
use dockkeep.Scheduler.State.{
  Answer, answer, error, Action, task_started, status_written, logs_cleaned, report_built, slept,
  locked, unlocked, start_result, Trace, Outside, State, act, Activity, running, stopped,
  StatusError, Task, Step, socket_closed, manager_shut_down,
}
use dockkeep.Config.{AppConfig}
use dockkeep.Scheduler.Status.{
  write_status, record_reload_error, loaded, reload_at, reload_if_changed,
}
use dockkeep.Scheduler.Reports.{
  send_report, history_report, buffer_report, in_window, until_due, report_window, report_due_time,
  is_due_at, send_due_report, report_if, send_report_if_due,
}
use dockkeep.Scheduler.Tasks.{
  Entry, entries, start_task, begun, chain, scheduled, start_due, check_and_run,
}
use dockkeep.Scheduler.Tick.{tick, tick_body, survived, cleanup_logs_if_due, cleanup_after, cleaned}
use dockkeep.Scheduler.Start.{run_ticks, shutdown}

abbrev pub is_quiet : Action → Bool
is_quiet locked = false
is_quiet unlocked = false
is_quiet slept = false
is_quiet (start_result r m) = false
is_quiet (task_started x) = false
is_quiet (report_built e) = false
is_quiet _ = true

module _ (o : Outside) (Q : Trace → Type 0)
    (keep : (a : Action) (t : Trace) → is_quiet a ≡ true → Q t → Q (a ∷ t)) where
  abbrev On : State → Type 0
  On s = Q s.trace

  abbrev After : Option String × State → Type 0
  After r = On r.1

  either : (b : Bool) (x y : State) → On x → On y → On (if b then x else y)
  either = if-holds On

  either_step :
      (b : Bool) (x y : Option String × State) → After x → After y → After (if b then x else y)
  either_step = if-holds After

  pub write_status-On :
      (a : Activity) (e : Option StatusError) (s : State) → On s → On (write_status a e s)
  unfolding write_status
  write_status-On a e s h =
      either s.has_status_writer _ s (keep (status_written a _) s.trace refl h) h

  record_reload_error-On : (e : String) (s : State) → On s → On (record_reload_error e s)
  unfolding record_reload_error
  record_reload_error-On e s h =
      let shown : StatusError = record { code = "reload_config_error"; message = e } in
      write_status-On running (some shown) (record s { reload_error = some shown }) h

  loaded-On :
      (m : ℕ) (d : Option String) (r : Answer AppConfig) (s : State) → On s → On (loaded m d r s)
  unfolding loaded
  loaded-On m d (answer config) s h =
      write_status-On running none
        (record s {
          config_mtime = some m;
          config_digest = d;
          config = config;
          reload_error = none;
        })
        h
  loaded-On m d (error e) s h =
      record_reload_error-On e (record s { config_mtime = some m; config_digest = d }) h

  reload_at-On : (r : Answer ℕ) (s : State) → On s → On (reload_at o r s)
  unfolding reload_at
  reload_at-On (error e) s h =
      record_reload_error-On e (record s { config_mtime = none; config_digest = none }) h
  reload_at-On (answer m) s h = either _ s _ h (loaded-On m (o.digest s.trace) (o.load s.trace) s h)

  pub reload_if_changed-On : (s : State) → On s → On (reload_if_changed o s)
  unfolding reload_if_changed
  reload_if_changed-On s h = either s.has_config_path _ s (reload_at-On (o.stat s.trace) s h) h

  cleaned-On : (n : ℕ) (r : Answer ℕ) (s : State) → On s → On (cleaned n r s)
  cleaned-On n (answer k) s h = keep (logs_cleaned n) s.trace refl h
  cleaned-On n (error e) s h = h

  cleanup_after-On : (n : Option ℕ) (now : ℕ) (s : State) → On s → On (cleanup_after o n now s)
  cleanup_after-On none now s h = h
  cleanup_after-On (some n) now s h = either _ s _ h (
      cleaned-On n (o.cleanup s.trace n) (record s { last_log_cleanup_day = some (o.day_of now) })
        h)

  pub cleanup_logs_if_due-On : (now : ℕ) (s : State) → On s → On (cleanup_logs_if_due o now s)
  unfolding cleanup_logs_if_due
  cleanup_logs_if_due-On now s h = cleanup_after-On s.config.global_.log_retention_days now s h

  pub survived-On : (r : Option String × State) → After r → On (survived r)
  survived-On (none, s) h = h
  survived-On (some e, s) h = write_status-On running _ s h

  pub shutdown-On : (s : State) → On s → On (shutdown s)
  unfolding shutdown
  shutdown-On s h =
      write_status-On stopped none (act socket_closed (act manager_shut_down s))
        (keep socket_closed _ refl (keep manager_shut_down s.trace refl h))

  module _ (reports : (e : ReportEvent) (t : Trace) → Q t → Q (report_built e ∷ t)) where
    send_report-On :
        (a b now : ℕ) (rs : List RunRecord) (s : State) → On s → On (send_report o a b now rs s)
    unfolding send_report
    send_report-On a b now rs s h = reports _ s.trace h

    history_report-On :
        (a b now : ℕ) (r : Answer (List RunRecord)) (s : State)
        → On s
        → On (history_report o a b now r s)
    unfolding history_report
    history_report-On a b now (answer rs) s h = send_report-On a b now rs s h
    history_report-On a b now (error e) s h = h

    in_window-After :
        (now : ℕ) (w : Option (ℕ × ℕ)) (s : State) → On s → After (in_window o now w s)
    in_window-After now none s h = h
    in_window-After now (some (a, b)) s h =
        history_report-On a b now (o.finished_between s.trace a b) s h

    until_due-After : (now : ℕ) (w : Option ℕ) (s : State) → On s → After (until_due o now w s)
    unfolding buffer_report
    until_due-After now none s h = h
    until_due-After now (some b) s h =
        send_report-On _ b now s.report_buffer
          (record s { report_buffer = []; last_report_window_end = some b }) h

    send_due_report-After :
        (schedule : String) (now : ℕ) (s : State) → On s → After (send_due_report o schedule now s)
    unfolding send_due_report
    send_due_report-After schedule now s h =
        let window = report_window o.cron schedule now in
        let until = report_due_time o.cron schedule now in
        either_step s.persistent (in_window o now window s) (until_due o now until s)
          (in_window-After now window s h) (until_due-After now until s h)

    report_if-After :
        (schedule : Option String) (now : ℕ) (s : State) → On s → After (report_if o schedule now s)
    report_if-After none now s h = h
    report_if-After (some schedule) now s h =
        let due = is_due_at o s now schedule in
        let sent = send_due_report o schedule now s in
        either_step (is_empty schedule) (none, s) (if due then sent else (none, s)) h
          (either_step due sent (none, s) (send_due_report-After schedule now s h) h)

    pub send_report_if_due-After : (now : ℕ) (s : State) → On s → After (send_report_if_due o now s)
    unfolding send_report_if_due
    send_report_if_due-After now s h =
        report_if-After s.config.global_.notifications.report_schedule now s h

  module _ (starts : (x : Task) (t : Trace) → Q t → Q (task_started x ∷ t)) where
    begun-After : (t : Task) (r : Answer (Unit {0})) (s : State) → On s → After (begun t r s)
    begun-After t (answer _) s h = starts t s.trace h
    begun-After t (error e) s h = h

    chain-After :
        (r : Option String × State) (next : Step)
        → After r
        → ((s : State) → On s → After (next s))
        → After (chain r next)
    chain-After (none, s) next h k = k s h
    chain-After (some e, s) next h k = h

    pub start_due-After :
        (due : String → Bool) (es : List Entry) (s : State) → On s → After (start_due o due es s)
    unfolding start_due start_task
    start_due-After due [] s h = h
    start_due-After due (e ∷ es) s h =
        either_step (scheduled due e.schedule) _ _
          (chain-After (start_task o e s) (start_due o due es)
            (begun-After _ (o.start s.trace _) s h) (start_due-After due es))
          (start_due-After due es s h)

    module _ (reports : (e : ReportEvent) (t : Trace) → Q t → Q (report_built e ∷ t)) where
      check_and_run-After : (now : ℕ) (s : State) → On s → After (check_and_run o now s)
      unfolding check_and_run
      check_and_run-After now s h =
          chain-After (send_report_if_due o now s) _ (send_report_if_due-After reports now s h)
            (λ s1 h1. start_due-After (is_due_at o s1 now) (entries s1.config.jobs) s1 h1)

      tick-On : (now : ℕ) (s : State) → On s → On (tick o now s)
      unfolding tick tick_body
      tick-On now s h = survived-On (tick_body o now s) (
          chain-After (check_and_run o now (reload_if_changed o s)) _
            (check_and_run-After now (reload_if_changed o s) (reload_if_changed-On s h))
            (λ s1 h1.
              write_status-On running none
                (record (cleanup_logs_if_due o now s1) { last_check_time = some now })
                (cleanup_logs_if_due-On now s1 h1)))

      pub run_ticks-On : (nows : List ℕ) (s : State) → On s → On (run_ticks o nows s)
      unfolding run_ticks
      run_ticks-On [] s h = h
      run_ticks-On (now ∷ nows) s h = run_ticks-On nows (tick o now s) (tick-On now s h)
