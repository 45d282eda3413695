-- ===== src/Scheduler/Tick.antt =====
-- The body of the main loop in `_run_locked`, and `_cleanup_logs_if_due`.
use dockkeep.Prelude.{ℕ, String, Bool, false, Option, none, some, ◌=ℕ=◌, if◌then◌else◌}
use dockkeep.Scheduler.State.{
  Answer, answer, error, running, logs_cleaned, Outside, State, act, Step,
}
use dockkeep.Scheduler.Status.{write_status, reload_if_changed}
use dockkeep.Scheduler.Tasks.{chain, check_and_run}

abbrev cleaned_on : ℕ → Option ℕ → Bool
cleaned_on today none = false
cleaned_on today (some day) = day =ℕ= today

-- A failed cleanup is only logged.
abbrev pub cleaned : ℕ → Answer ℕ → State → State
cleaned retention (answer deleted) s = act (logs_cleaned retention) s
cleaned retention (error e) s = s

abbrev pub cleanup_after : Outside → Option ℕ → ℕ → State → State
cleanup_after o none now s = s
cleanup_after o (some retention) now s =
    let today = o.day_of now in
    if cleaned_on today s.last_log_cleanup_day
    then s
    else cleaned retention (o.cleanup s.trace retention)
        (record s { last_log_cleanup_day = some today })

unfoldable pub cleanup_logs_if_due : Outside → ℕ → State → State
cleanup_logs_if_due o now s = cleanup_after o s.config.global_.log_retention_days now s

unfoldable pub tick_body : Outside → ℕ → Step
unfolding reload_if_changed check_and_run cleanup_logs_if_due write_status
tick_body o now s = chain (check_and_run o now (reload_if_changed o s)) λ s1. (
  none,
  write_status running none (record (cleanup_logs_if_due o now s1) { last_check_time = some now }),
)

-- `except Exception`
abbrev pub survived : Option String × State → State
survived (none, s) = s
survived (some e, s) =
    write_status running (some (record { code = "scheduler_tick_error"; message = e })) s

unfoldable pub tick : Outside → ℕ → State → State
unfolding tick_body write_status
tick o now s = survived (tick_body o now s)
