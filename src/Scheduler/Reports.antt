-- ===== src/Scheduler/Reports.antt =====
-- The periodic report: `_send_report_if_due` and the functions that it calls.
use dockkeep.Prelude.{
  ℕ, suc, ◌-◌, String, Bool, Option, none, some, List, [], ◌∷◌, ◌++◌, map, if◌then◌else◌, is_empty,
}
use dockkeep.Prelude.Dict.{Dict, lookup, insert}
use dockkeep.Manager.{RunStatus}
use dockkeep.Stream.Drop.{last_n}
use dockkeep.Notifications.Events.{
  RunRecord, RunSummary, ReportEvent, build_providers, format_run_target, value,
}
use dockkeep.Notifications.Dispatcher.{notify_report}
use dockkeep.Notifications.Terminal.{terminal_notification_hook}
use dockkeep.Scheduler.Due.{Cron, is_first, is_due}
use dockkeep.Scheduler.State.{Answer, answer, error, report_built, Outside, State, act}

abbrev pub report_buffer_limit : ℕ
report_buffer_limit = 500

-- `REPORT_STATUSES`
abbrev pub report_statuses : List RunStatus
report_statuses =
    RunStatus.success ∷ RunStatus.failed ∷ RunStatus.cancelled ∷ RunStatus.skipped
    ∷ RunStatus.lock_error ∷ RunStatus.config_error ∷ RunStatus.unexpected_error ∷ []

abbrev pub or_else : Option ℕ → ℕ → ℕ
or_else none n = n
or_else (some m) n = m

-- `max(0, finished_at - started_at)`: subtraction stops at 0.
abbrev duration : Option ℕ → ℕ → Option ℕ
duration none started_at = none
duration (some finished_at) started_at = some (finished_at - started_at)

unfoldable pub report_summary : RunRecord → RunSummary
unfolding format_run_target
report_summary r =
    let started_at = or_else r.started_at r.created_at in
    record {
      origin = r.origin;
      job = r.job;
      target = format_run_target r.run_kind r.job r.task_type r.task_name;
      status = r.status;
      started_at = started_at;
      finished_at = r.finished_at;
      duration = duration r.finished_at started_at;
      dry_run = r.dry_run;
      error = r.error;
    }

-- `status_counts.setdefault(v, 0)` and `status_counts[v] += 1`
abbrev pub or_zero : Option ℕ → ℕ
or_zero none = 0
or_zero (some n) = n

unfoldable pub count_status : Dict ℕ → List RunRecord → Dict ℕ
count_status counts [] = counts
count_status counts (r ∷ rs) =
    let v = value r.status in count_status (insert v (suc (or_zero (lookup v counts))) counts) rs

abbrev pub no_counts : List RunStatus → Dict ℕ
no_counts [] = []
no_counts (s ∷ ss) = (value s, 0) ∷ no_counts ss

unfoldable pub report_event_from_records : ℕ → ℕ → ℕ → List RunRecord → ReportEvent
unfolding report_summary count_status value
report_event_from_records window_start window_end generated_at records = record {
  window_start = window_start;
  window_end = window_end;
  generated_at = generated_at;
  status_counts = count_status (no_counts report_statuses) records;
  runs = map report_summary records;
}

-- `_report_due_time`; `none` is an exception of croniter.
unfoldable pub report_due_time : Cron → String → ℕ → Option ℕ
report_due_time cron schedule now = cron schedule (suc now)

abbrev pub window_to : Option ℕ → Option ℕ → Option (ℕ × ℕ)
window_to (some previous_due) (some current_due) = some (previous_due, current_due)
window_to _ _ = none

abbrev pub previous : Cron → String → Option ℕ → Option ℕ
previous cron schedule none = none
previous cron schedule (some due) = cron schedule due

unfoldable pub report_window : Cron → String → ℕ → Option (ℕ × ℕ)
unfolding report_due_time
report_window cron schedule now =
    let due = report_due_time cron schedule now in window_to (previous cron schedule due) due

-- The report is built and sent; what becomes of it is only logged.
unfoldable pub send_report : Outside → ℕ → ℕ → ℕ → List RunRecord → State → State
unfolding report_event_from_records build_providers notify_report
send_report o window_start window_end now records s =
    let e = report_event_from_records window_start window_end now records in
    let providers = build_providers s.config.global_.notifications in
    act (report_built e) (record s { sendings = (notify_report o.outlet providers e s.sendings).1 })

-- With the history: a failed query gives up this report.
unfoldable pub history_report : Outside → ℕ → ℕ → ℕ → Answer (List RunRecord) → State → State
unfolding send_report
history_report o window_start window_end now (answer records) s =
    send_report o window_start window_end now records s
history_report o window_start window_end now (error e) s = s

-- Without it: the buffer, which is emptied, from the end of the report before or the start.
unfoldable pub buffer_report : Outside → ℕ → ℕ → State → State
unfolding send_report
buffer_report o window_end now s =
    let window_start = or_else s.last_report_window_end (or_else s.start_time window_end) in
    send_report o window_start window_end now s.report_buffer
      (record s { report_buffer = []; last_report_window_end = some window_end })

-- An exception of croniter leaves the method.
abbrev pub in_window : Outside → ℕ → Option (ℕ × ℕ) → State → Option String × State
in_window o now none s = (some "CroniterBadDateError", s)
in_window o now (some (window_start, window_end)) s = (
  none,
  history_report o window_start window_end now (o.finished_between s.trace window_start window_end)
      s,
)

abbrev pub until_due : Outside → ℕ → Option ℕ → State → Option String × State
until_due o now none s = (some "CroniterBadDateError", s)
until_due o now (some window_end) s = (none, buffer_report o window_end now s)

unfoldable pub send_due_report : Outside → String → ℕ → State → Option String × State
unfolding report_window report_due_time history_report buffer_report
send_due_report o schedule now s =
    if s.persistent
    then in_window o now (report_window o.cron schedule now) s
    else until_due o now (report_due_time o.cron schedule now) s

-- `not_before` is `last_check_time or self._start_time`, `include_not_before` that there was no check.
abbrev pub not_before : Option ℕ → Option ℕ → Option ℕ
not_before none start_time = start_time
not_before (some last_check_time) start_time = some last_check_time

abbrev pub is_due_at : Outside → State → ℕ → String → Bool
is_due_at o s now schedule =
    is_due o.cron schedule now (not_before s.last_check_time s.start_time)
      (is_first s.last_check_time)

abbrev pub report_if : Outside → Option String → ℕ → State → Option String × State
report_if o none now s = (none, s)
report_if o (some schedule) now s =
    if is_empty schedule
    then (none, s)
    else if is_due_at o s now schedule
    then send_due_report o schedule now s
    else (none, s)

unfoldable pub send_report_if_due : Outside → ℕ → State → Option String × State
unfolding is_due send_due_report
send_report_if_due o now s = report_if o s.config.global_.notifications.report_schedule now s

-- `deque.append` with the limit of the buffer, in `_cli_terminal_hook`.
unfoldable pub cli_terminal_hook : Outside → RunRecord → State → State
unfolding terminal_notification_hook
cli_terminal_hook o r s = record s {
  report_buffer = last_n report_buffer_limit (s.report_buffer ++ r ∷ []);
  sendings = terminal_notification_hook o.outlet r s.sendings;
}
