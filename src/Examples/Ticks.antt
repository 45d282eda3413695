-- ===== src/Examples/Ticks.antt =====
-- A scheduler of the test job, whose schedules are all due at the time 10 only.
use dockkeep.Prelude.{
  ℕ, ◌+◌, ◌≤◌, ◌≡◌, refl, String, true, false, none, some, List, [], ◌∷◌, ltb, if◌then◌else◌,
}
use dockkeep.Config.{ProvidersConfig, AppConfig}
use dockkeep.Scheduler.Due.{Cron}
use dockkeep.Scheduler.State.{answer, Outside, State}
use dockkeep.Scheduler.Reports.{or_zero, report_event_from_records}
use dockkeep.Notifications.Events.{backup}
use dockkeep.Scheduler.Start.{run}
use dockkeep.Scheduler.Waits.{waits, run-waits}
use dockkeep.Scheduler.Told.{Reports, run-Reports}
use dockkeep.Scheduler.Tasks.{Entry}
use dockkeep.Scheduler.Counts.{tally, report_event-counts}
use dockkeep.Scheduler.Buffer.{desk, reports_of}
use dockkeep.Scheduler.Windows.{
  Happening, ticked, run_ended, happen, ended_runs, Holds, happen-Holds,
}
use dockkeep.Prelude.Dict.{lookup}
use dockkeep.Examples.{job, on_error}
use dockkeep.Examples.Sendings.{outlet, finished_run}

abbrev at_ten : Cron
at_ten = λ s t. if ltb 10 t then some 10 else none

abbrev IsTen : String → ℕ → Type 0
IsTen s d = d ≡ 10

abbrev no_providers : ProvidersConfig
no_providers = record { report_schedule = some "@ten"; mail = none; pushover = none }

abbrev app : AppConfig
app = record {
  global_ = record {
    log_level = "info";
    log_retention_days = some 30;
    lock_retry_count = none;
    lock_retry_delay = none;
    notifications = no_providers;
  };
  jobs = ("home", job) ∷ [];
}

abbrev clockwork : Outside
clockwork = record {
  cron = at_ten;
  stat = λ t. answer 3;
  digest = λ t. some "aa";
  load = λ t. answer app;
  start = λ t x. answer tt;
  cleanup = λ t n. answer 0;
  finished_between = λ t a b. answer [];
  outlet = outlet;
  today = λ t. "2026-01-01";
  day_of = λ n. n;
  lock = λ t. answer true;
  interrupt = λ t. answer tt;
  open_socket = λ t. answer tt;
  clock = λ t. 5;
}

abbrev fresh : State
fresh = record {
  config = app;
  has_config_path = true;
  config_mtime = none;
  config_digest = none;
  reload_error = none;
  persistent = false;
  has_status_writer = true;
  has_start_callback = true;
  log_base_dir = "/logs";
  lock_path = "/locks/scheduler.lock";
  start_time = some 5;
  last_check_time = none;
  last_log_cleanup_day = none;
  report_buffer = [];
  last_report_window_end = none;
  trace = [];
  sendings = [];
}

abbrev steady : State
steady = record fresh { has_config_path = false }

abbrev nightly : Entry
nightly = record {
  job = "home";
  kind = backup;
  name = "files";
  schedule = some "0 2 * * *";
  notifications = on_error;
}

run-Reports_example :
    Reports (run clockwork (8 ∷ 12 ∷ []) fresh).0 (run clockwork (8 ∷ 12 ∷ []) fresh).1.trace
run-Reports_example = run-Reports clockwork (8 ∷ 12 ∷ []) fresh (refl, refl)

report_event-counts_example :
    or_zero (lookup "success" (report_event_from_records 0 9 10 (finished_run ∷ [])).status_counts)
    ≡ tally "success" (finished_run ∷ [])
report_event-counts_example = report_event-counts "success" 0 9 10 (finished_run ∷ [])

abbrev one_day : List Happening
one_day = ticked 8 ∷ run_ended finished_run ∷ ticked 12 ∷ []

happen-Holds_example :
    Holds 5
      (ended_runs one_day)
      (desk (happen clockwork one_day fresh))
      (reports_of (happen clockwork one_day fresh).trace)
unfolding reports_of
happen-Holds_example = happen-Holds clockwork 5 one_day fresh refl refl refl refl refl

run-waits_example : waits (run clockwork (8 ∷ 12 ∷ []) fresh).1.trace ≤ waits fresh.trace + 2
run-waits_example = run-waits clockwork (8 ∷ 12 ∷ []) fresh
