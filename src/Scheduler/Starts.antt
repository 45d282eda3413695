-- ===== src/Scheduler/Starts.antt =====
-- Which tasks a tick starts.
use dockkeep.Prelude.{
  ℕ, suc, ◌≡◌, refl, sym, ap, ◌∙◌, ◌⊎◌, inl, inr, Bool, true, false≢true, if-same, if-holds,
  Bool-cases, String, Option, none, some, List, [], ◌∷◌, ◌++◌, append-nil, append_assoc,
  if◌then◌else◌, is_empty,
}
use dockkeep.Config.{AppConfig}
use dockkeep.Notifications.Events.{TaskType, RunRecord}
use dockkeep.Scheduler.State.{
  Answer, answer, error, Action, task_started, status_written, logs_cleaned, report_built, slept,
  locked, unlocked, socket_opened, socket_closed, runs_interrupted, manager_shut_down, start_result,
  Trace, Outside, State, act, Task, Step, running, StatusError,
}
use dockkeep.Scheduler.Due.{is_first, is_due}
use dockkeep.Scheduler.Buffer.{cleanup_after-desk}
use dockkeep.Scheduler.Status.{write_status, reload_if_changed}
use dockkeep.Scheduler.Reports.{
  send_report, history_report, buffer_report, in_window, until_due, report_window, report_due_time,
  send_due_report, window_to, previous, report_if, send_report_if_due, is_due_at, not_before,
}
use dockkeep.Scheduler.Tasks.{
  Entry, entries, start_task, begun, chain, scheduled, start_due, check_and_run,
}
use dockkeep.Scheduler.Tick.{tick, tick_body, survived, cleanup_logs_if_due}
use dockkeep.Scheduler.Keeps.{
  is_quiet, write_status-On, reload_if_changed-On, send_report_if_due-After, cleanup_logs_if_due-On,
}

-- A task of a job.
abbrev pub Key : Type 0
Key = String × (TaskType × String)

abbrev pub entry_key : Entry → Key
entry_key e = (e.job, (e.kind, e.name))

-- The tasks that were started, in order.
unfoldable pub started_keys : Trace → List Key
started_keys [] = []
started_keys (task_started t ∷ tr) = started_keys tr ++ (t.job, (t.kind, t.name)) ∷ []
started_keys (_ ∷ tr) = started_keys tr

abbrev pub due_of : (String → Bool) → List Entry → List Key
due_of due [] = []
due_of due (e ∷ es) =
    let rest = due_of due es in if scheduled due e.schedule then entry_key e ∷ rest else rest

-- The tasks of a configuration whose schedule is due, in the order of the configuration.
abbrev pub due_keys : Outside → ℕ → AppConfig → Option ℕ → Option ℕ → List Key
due_keys o now config last_check_time start_time =
    due_of
      (λ schedule.
        is_due o.cron schedule now (not_before last_check_time start_time)
          (is_first last_check_time))
      (entries config.jobs)

-- What can make a tick raise: the run manager does not start a task, or croniter finds no time for the
-- report.
pub data Fault (o : Outside) : Type 0 where
  start_fails : (t : Trace) (x : Task) (e : String) → o.start t x ≡ error e → Fault o
  no_time : (schedule : String) (t : ℕ) → o.cron schedule t ≡ none → Fault o

-- The first of the tasks that are due were started, and all of them where nothing was raised.
record Begins (o : Outside) (keys : List Key) (s : State) (r : Option String × State) : Type 0 where
  done : List Key
  left : List Key
  all : keys ≡ done ++ left
  begun : started_keys r.1.trace ≡ started_keys s.trace ++ done
  complete : r.0 ≡ none → left ≡ []
  excused : (e : String) → r.0 ≡ some e → Fault o
  same_check : r.1.last_check_time ≡ s.last_check_time
  same_start : r.1.start_time ≡ s.start_time

module _ (o : Outside) (due : String → Bool) where
  first_task :
      (t : Task) (a : Answer (Unit {0})) (s : State) (keys : List Key) (next : Step)
      → o.start s.trace t ≡ a
      → ((s1 : State) → Begins o keys s1 (next s1))
      → Begins o ((t.job, (t.kind, t.name)) ∷ keys) s (chain (begun t a s) next)
  unfolding started_keys
  first_task t (error e) s keys next q k = record {
    done = [];
    left = (t.job, (t.kind, t.name)) ∷ keys;
    all = refl;
    begun = sym (append-nil (started_keys s.trace));
    complete = λ n. absurd (cc n);
    excused = λ x h. start_fails s.trace t e q;
    same_check = refl;
    same_start = refl;
  }
  first_task t (answer _) s keys next q k =
      let b = k (act (task_started t) s) in
      record {
        done = (t.job, (t.kind, t.name)) ∷ b.done;
        left = b.left;
        all = ap (◌∷◌ (t.job, (t.kind, t.name))) b.all;
        begun =
            b.begun ∙ append_assoc (started_keys s.trace) ((t.job, (t.kind, t.name)) ∷ []) b.done;
        complete = b.complete;
        excused = b.excused;
        same_check = b.same_check;
        same_start = b.same_start;
      }

  start_due-Begins :
      (es : List Entry) (s : State) → Begins o (due_of due es) s (start_due o due es s)
  unfolding start_due start_task
  start_due-Begins [] s = record {
    done = [];
    left = [];
    all = refl;
    begun = sym (append-nil (started_keys s.trace));
    complete = λ n. refl;
    excused = λ e h. absurd (cc h);
    same_check = refl;
    same_start = refl;
  }
  start_due-Begins (e ∷ es) s = elim (Bool-cases (scheduled due e.schedule)) [
    | inl k ↦ rw k (
        first_task _ (o.start s.trace _) s (due_of due es) (start_due o due es) refl
          (start_due-Begins es))
    | inr k ↦ rw k (start_due-Begins es s)
  ]

abbrev clock : State → AppConfig × (Option ℕ × Option ℕ)
clock s = (s.config, (s.last_check_time, s.start_time))

module _ (o : Outside) (now : ℕ) where
  history_report-clock :
      (a b : ℕ) (r : Answer (List RunRecord)) (s : State)
      → clock (history_report o a b now r s) ≡ clock s
  unfolding history_report send_report
  history_report-clock a b (answer rs) s = refl
  history_report-clock a b (error e) s = refl

  in_window-clock : (w : Option (ℕ × ℕ)) (s : State) → clock (in_window o now w s).1 ≡ clock s
  in_window-clock none s = refl
  in_window-clock (some (a, b)) s = history_report-clock a b (o.finished_between s.trace a b) s

  until_due-clock : (w : Option ℕ) (s : State) → clock (until_due o now w s).1 ≡ clock s
  unfolding buffer_report send_report
  until_due-clock none s = refl
  until_due-clock (some b) s = refl

  send_due_report-clock :
      (schedule : String) (s : State) → clock (send_due_report o schedule now s).1 ≡ clock s
  unfolding send_due_report
  send_due_report-clock schedule s =
      let window = report_window o.cron schedule now in
      let until = report_due_time o.cron schedule now in
      if-holds (λ r. clock r.1 ≡ clock s) s.persistent (in_window o now window s)
        (until_due o now until s) (in_window-clock window s) (until_due-clock until s)

  report_if-clock :
      (schedule : Option String) (s : State) → clock (report_if o schedule now s).1 ≡ clock s
  report_if-clock none s = refl
  report_if-clock (some schedule) s =
      let due = is_due_at o s now schedule in
      let sent = send_due_report o schedule now s in
      let P : Option String × State → Type 0 = λ r. clock r.1 ≡ clock s in
      if-holds P (is_empty schedule) (none, s) (if due then sent else (none, s)) refl
        (if-holds P due sent (none, s) (send_due_report-clock schedule s) refl)

  no_previous :
      (schedule : String) (d : ℕ) (y : Option ℕ)
      → o.cron schedule d ≡ y
      → window_to y (some d) ≡ none
      → Fault o
  no_previous schedule d none q h = no_time schedule d q
  no_previous schedule d (some p) q h = absurd (cc h)

  window-Fault :
      (schedule : String) (x : Option ℕ)
      → o.cron schedule (suc now) ≡ x
      → window_to (previous o.cron schedule x) x ≡ none
      → Fault o
  window-Fault schedule none q h = no_time schedule (suc now) q
  window-Fault schedule (some d) q h = no_previous schedule d (o.cron schedule d) refl h

  in_window-Fault :
      (w : Option (ℕ × ℕ)) (s : State) (e : String)
      → (w ≡ none → Fault o)
      → (in_window o now w s).0 ≡ some e
      → Fault o
  in_window-Fault none s e f h = f refl
  in_window-Fault (some (a, b)) s e f h = absurd (cc h)

  until_due-Fault :
      (w : Option ℕ) (s : State) (e : String)
      → (w ≡ none → Fault o)
      → (until_due o now w s).0 ≡ some e
      → Fault o
  until_due-Fault none s e f h = f refl
  until_due-Fault (some b) s e f h = absurd (cc h)

  abbrev Excused : Option String × State → Type 0
  Excused r = (e : String) → r.0 ≡ some e → Fault o

  send_due_report-Fault :
      (schedule : String) (s : State) → Excused (send_due_report o schedule now s)
  unfolding send_due_report report_window report_due_time
  send_due_report-Fault schedule s =
      let due = o.cron schedule (suc now) in
      if-holds Excused s.persistent (in_window o now (report_window o.cron schedule now) s)
        (until_due o now due s)
        (λ e.
          in_window-Fault (report_window o.cron schedule now) s e (window-Fault schedule due refl))
        (λ e. until_due-Fault due s e (no_time schedule (suc now)))

  report_if-Fault : (schedule : Option String) (s : State) → Excused (report_if o schedule now s)
  report_if-Fault none s = λ e h. absurd (cc h)
  report_if-Fault (some schedule) s =
      let due = is_due_at o s now schedule in
      let sent = send_due_report o schedule now s in
      let fine : Excused (none, s) = λ e h. absurd (cc h) in
      if-holds Excused (is_empty schedule) (none, s) (if due then sent else (none, s)) fine
        (if-holds Excused due sent (none, s) (send_due_report-Fault schedule s) fine)

  keep-keys :
      (ks : List Key) (a : Action) (t : Trace)
      → is_quiet a ≡ true
      → started_keys t ≡ ks
      → started_keys (a ∷ t) ≡ ks
  unfolding started_keys
  keep-keys ks locked t q i = i
  keep-keys ks unlocked t q i = i
  keep-keys ks slept t q i = i
  keep-keys ks (start_result r m) t q i = i
  keep-keys ks (task_started x) t q i = absurd (false≢true q)
  keep-keys ks (status_written x e) t q i = i
  keep-keys ks (logs_cleaned n) t q i = i
  keep-keys ks (report_built e) t q i = absurd (false≢true q)
  keep-keys ks socket_opened t q i = i
  keep-keys ks socket_closed t q i = i
  keep-keys ks runs_interrupted t q i = i
  keep-keys ks manager_shut_down t q i = i

  abbrev keys_at : State → List Key
  keys_at s = due_keys o now s.config s.last_check_time s.start_time

  checked :
      (r : Option String × State) (s : State)
      → clock r.1 ≡ clock s
      → started_keys r.1.trace ≡ started_keys s.trace
      → ((e : String) → r.0 ≡ some e → Fault o)
      → Begins o
          (keys_at s)
          s
          (chain r λ s1. start_due o (is_due_at o s1 now) (entries s1.config.jobs) s1)
  checked (some e, s1) s c k f = record {
    done = [];
    left = keys_at s;
    all = refl;
    begun = k ∙ sym (append-nil (started_keys s.trace));
    complete = λ n. absurd (cc n);
    excused = f;
    same_check = ap (λ x. x.1.0) c;
    same_start = ap (λ x. x.1.1) c;
  }
  checked (none, s1) s c k f =
      let b = start_due-Begins o (is_due_at o s1 now) (entries s1.config.jobs) s1 in
      record {
        done = b.done;
        left = b.left;
        all = ap (λ x. due_keys o now x.0 x.1.0 x.1.1) (sym c) ∙ b.all;
        begun = b.begun ∙ ap (λ ks. ks ++ b.done) k;
        complete = b.complete;
        excused = b.excused;
        same_check = b.same_check ∙ ap (λ x. x.1.0) c;
        same_start = b.same_start ∙ ap (λ x. x.1.1) c;
      }

  check_and_run-Begins : (s : State) → Begins o (keys_at s) s (check_and_run o now s)
  unfolding check_and_run send_report_if_due started_keys
  check_and_run-Begins s =
      checked (send_report_if_due o now s) s
        (report_if-clock s.config.global_.notifications.report_schedule s)
        (send_report_if_due-After o (λ t. started_keys t ≡ started_keys s.trace)
          (keep-keys (started_keys s.trace)) (λ e t h. h) now s refl)
        (report_if-Fault s.config.global_.notifications.report_schedule s)

-- What a tick starts: of the tasks that are due, the first ones. Either these are all and the tick is
-- the last check, or something has failed and the last check stays.
pub record TickStarts (o : Outside) (now : ℕ) (s before after : State) : Type 0 where
  pub done : List Key
  pub left : List Key
  pub due : due_keys o now before.config before.last_check_time before.start_time ≡ done ++ left
  pub begun : started_keys after.trace ≡ started_keys s.trace ++ done
  pub counts :
      ((left ≡ []) × (after.last_check_time ≡ some now))
      ⊎ ((after.last_check_time ≡ before.last_check_time) × Fault o)
  pub same_start : after.start_time ≡ before.start_time

module _ (o : Outside) (now : ℕ) (s : State) where
  abbrev before : State
  before = reload_if_changed o s

  ended :
      (r : Option String × State)
      → started_keys before.trace ≡ started_keys s.trace
      → Begins o (keys_at o now before) before r
      → TickStarts o now s before (
          survived (
            chain r λ s1. (
              none,
              write_status running none
                  (record (cleanup_logs_if_due o now s1) { last_check_time = some now }),
            )))
  unfolding write_status cleanup_logs_if_due
  ended (some e, s1) k b =
      let shown : StatusError = record { code = "scheduler_tick_error"; message = e } in
      let same =
        write_status-On o (λ t. started_keys t ≡ started_keys s1.trace) (keep-keys o now _) running
          (some shown) s1 refl in
      record {
        done = b.done;
        left = b.left;
        due = b.all;
        begun = same ∙ b.begun ∙ ap (λ ks. ks ++ b.done) k;
        counts = inr (
          if-same (λ x. x.last_check_time) s1.has_status_writer _ s1 refl ∙ b.same_check,
          b.excused e refl,
        );
        same_start = if-same (λ x. x.start_time) s1.has_status_writer _ s1 refl ∙ b.same_start;
      }
  ended (none, s1) k b =
      let s2 = record (cleanup_logs_if_due o now s1) { last_check_time = some now } in
      let Q : Trace → Type 0 = λ t. started_keys t ≡ started_keys s1.trace in
      let same =
        write_status-On o Q (keep-keys o now _) running none s2
          (cleanup_logs_if_due-On o Q (keep-keys o now _) now s1 refl) in
      record {
        done = b.done;
        left = b.left;
        due = b.all;
        begun = same ∙ b.begun ∙ ap (λ ks. ks ++ b.done) k;
        counts =
            inl (b.complete refl, if-same (λ x. x.last_check_time) s2.has_status_writer _ s2 refl);
        same_start =
            if-same (λ x. x.start_time) s2.has_status_writer _ s2 refl
            ∙ ap (λ x. x.1.1.0) (cleanup_after-desk o s1.config.global_.log_retention_days now s1)
            ∙ b.same_start;
      }

  pub tick-Starts : TickStarts o now s (reload_if_changed o s) (tick o now s)
  unfolding tick tick_body
  tick-Starts =
      ended (check_and_run o now before)
        (reload_if_changed-On o (λ t. started_keys t ≡ started_keys s.trace)
          (keep-keys o now (started_keys s.trace)) s refl)
        (check_and_run-Begins o now before)
