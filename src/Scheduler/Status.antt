-- ===== src/Scheduler/Status.antt =====
-- `_write_status`, `_notify_start_result` and `_reload_if_changed`.
use dockkeep.Prelude.{
  ℕ, String, Bool, true, false, ◌&&◌, Option, none, some, ◌==◌, ◌=ℕ=◌, if◌then◌else◌,
}
use dockkeep.Config.{AppConfig}
use dockkeep.Scheduler.State.{
  Answer, answer, error, StatusError, Activity, running, stopped, StartState, status_written,
  start_result, Outside, State, act,
}

-- The error that a status shows.
abbrev shown : Activity → Option StatusError → Option StatusError → Option StatusError
shown running none reload_error = reload_error
shown running (some e) reload_error = some e
shown stopped e reload_error = e

unfoldable pub write_status : Activity → Option StatusError → State → State
write_status activity e s =
    if s.has_status_writer
    then act (status_written activity (shown activity e s.reload_error)) s
    else s

unfoldable pub notify_start_result : StartState → Option String → State → State
notify_start_result result message s =
    if s.has_start_callback
    then act (start_result result message) (record s { has_start_callback = false })
    else s

unfoldable pub record_reload_error : String → State → State
unfolding write_status
record_reload_error e s =
    let shown_error : StatusError = record { code = "reload_config_error"; message = e } in
    write_status running (some shown_error) (record s { reload_error = some shown_error })

abbrev pub same_time : ℕ → Option ℕ → Bool
same_time m none = false
same_time m (some n) = m =ℕ= n

abbrev pub same_digest : Option String → Option String → Bool
same_digest none none = true
same_digest none (some b) = false
same_digest (some a) none = false
same_digest (some a) (some b) = a == b

unfoldable pub loaded : ℕ → Option String → Answer AppConfig → State → State
unfolding record_reload_error write_status
loaded mtime digest (error e) s =
    record_reload_error e (record s { config_mtime = some mtime; config_digest = digest })
loaded mtime digest (answer config) s = write_status running none (record s {
  config_mtime = some mtime;
  config_digest = digest;
  config = config;
  reload_error = none;
})

-- The time, the digest and the content are three answers, and need not be of the same moment.
unfoldable pub reload_at : Outside → Answer ℕ → State → State
unfolding record_reload_error loaded
reload_at o (error e) s =
    record_reload_error e (record s { config_mtime = none; config_digest = none })
reload_at o (answer mtime) s =
    let digest = o.digest s.trace in
    if same_time mtime s.config_mtime && same_digest digest s.config_digest
    then s
    else loaded mtime digest (o.load s.trace) s

unfoldable pub reload_if_changed : Outside → State → State
unfolding reload_at
reload_if_changed o s = if s.has_config_path then reload_at o (o.stat s.trace) s else s
