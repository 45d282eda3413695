-- ===== src/Scheduler/Windows.antt =====
-- Which runs the reports of a scheduler without a run history are about, over its whole life: ticks,
-- and ends of runs at any time between them.
use dockkeep.Prelude.{
  ℕ, ◌≡◌, refl, sym, ap, ◌∙◌, subst, false, if-holds, String, Option, none, some, List, [], ◌∷◌,
  ◌++◌, map, append-nil, append_assoc, if◌then◌else◌, is_empty,
}
use dockkeep.Stream.Drop.{last_n, last_n-append}
use dockkeep.Notifications.Events.{RunRecord, ReportEvent}
use dockkeep.Scheduler.State.{Outside, State, running, StatusError}
use dockkeep.Scheduler.Status.{write_status, reload_if_changed}
use dockkeep.Scheduler.Reports.{
  report_buffer_limit, report_summary, or_else, report_event_from_records, send_report,
  buffer_report, in_window, until_due, report_window, report_due_time, send_due_report, report_if,
  send_report_if_due, is_due_at, cli_terminal_hook,
}
use dockkeep.Scheduler.Tasks.{entries, chain, start_due, check_and_run}
use dockkeep.Scheduler.Tick.{tick, tick_body, survived, cleanup_logs_if_due}
use dockkeep.Scheduler.Keeps.{
  write_status-On, reload_if_changed-On, start_due-After, cleanup_logs_if_due-On,
}
use dockkeep.Scheduler.Buffer.{
  Desk, desk, reports_of, keep-reports, starts-reports, write_status-desk, reload_if_changed-desk,
  start_due-desk, cleanup_after-desk,
}

-- The reports, the latest first, cut the runs that have ended into consecutive pieces, and each is
-- about the last runs of its piece, as many as the buffer holds. Its window begins where the one
-- before ends, and the first begins when the scheduler started.
pub record Piece (start : ℕ) (e : ReportEvent) (before : Option ℕ) (piece : List RunRecord)
    : Type 0 where
  pub runs : e.runs ≡ map report_summary (last_n report_buffer_limit piece)
  pub begins : e.window_start ≡ or_else before start

abbrev pub Covers : ℕ → List ReportEvent → List RunRecord → Option ℕ → Type 0
Covers start [] ended until = (ended ≡ []) × (until ≡ none)
Covers start (e ∷ es) ended until =
    (earlier : List RunRecord) × ((piece : List RunRecord) × ((before : Option ℕ) × ((ended
            ≡ earlier ++ piece)
          × ((until ≡ some e.window_end)
              × (Piece start e before piece × Covers start es earlier before)))))

-- The runs that no report was about yet are in the buffer, the last of them if it was full.
pub record Holds (start : ℕ) (ended : List RunRecord) (d : Desk) (es : List ReportEvent)
    : Type 0 where
  pub earlier : List RunRecord
  pub pending : List RunRecord
  pub split : ended ≡ earlier ++ pending
  pub buffer : d.0 ≡ last_n report_buffer_limit pending
  pub told : Covers start es earlier d.1.0
  pub began : d.1.1.0 ≡ some start
  pub memory : d.1.1.1 ≡ false

module _ (o : Outside) (start : ℕ) (ended : List RunRecord) where
  abbrev H : State → Type 0
  H s = Holds start ended (desk s) (reports_of s.trace)

  same-H : (s s1 : State) → desk s1 ≡ desk s → reports_of s1.trace ≡ reports_of s.trace → H s → H s1
  same-H s s1 d r h =
      subst (λ x. Holds start ended x (reports_of s1.trace)) (sym d)
        (subst (λ x. Holds start ended (desk s) x) (sym r) h)

  buffer_report-H : (until now : ℕ) (s : State) → H s → H (buffer_report o until now s)
  unfolding buffer_report send_report reports_of report_event_from_records
  buffer_report-H until now s h = record {
    earlier = ended;
    pending = [];
    split = sym (append-nil ended);
    buffer = refl;
    told = (
      h.earlier,
      (
        h.pending,
        (
          s.last_report_window_end,
          (
            h.split,
            (
              refl,
              (
                record {
                  runs = ap (map report_summary) h.buffer;
                  begins = ap (λ x. or_else s.last_report_window_end (or_else x until)) h.began;
                },
                h.told,
              ),
            ),
          ),
        ),
      ),
    );
    began = h.began;
    memory = h.memory;
  }

  until_due-H : (w : Option ℕ) (now : ℕ) (s : State) → H s → H (until_due o now w s).1
  until_due-H none now s h = h
  until_due-H (some until) now s h = buffer_report-H until now s h

  send_due_report-H :
      (schedule : String) (now : ℕ) (s : State) → H s → H (send_due_report o schedule now s).1
  unfolding send_due_report
  send_due_report-H schedule now s h =
      let until = report_due_time o.cron schedule now in
      let window = report_window o.cron schedule now in
      subst (λ b. H (if b then in_window o now window s else until_due o now until s).1)
        (sym h.memory) (until_due-H until now s h)

  report_if-H :
      (schedule : Option String) (now : ℕ) (s : State) → H s → H (report_if o schedule now s).1
  report_if-H none now s h = h
  report_if-H (some schedule) now s h =
      let due = is_due_at o s now schedule in
      let sent = send_due_report o schedule now s in
      let P : Option String × State → Type 0 = λ r. H r.1 in
      if-holds P (is_empty schedule) (none, s) (if due then sent else (none, s)) h
        (if-holds P due sent (none, s) (send_due_report-H schedule now s h) h)

  start_due-H :
      (now : ℕ) (r : Option String × State)
      → H r.1
      → H (chain r λ s1. start_due o (is_due_at o s1 now) (entries s1.config.jobs) s1).1
  start_due-H now (some e, s) h = h
  start_due-H now (none, s) h =
      let due = is_due_at o s now in
      let es = entries s.config.jobs in
      same-H s (start_due o due es s).1 (start_due-desk o due es s)
        (start_due-After o (λ t. reports_of t ≡ reports_of s.trace)
          (keep-reports (reports_of s.trace)) (starts-reports (reports_of s.trace)) due es s refl)
        h

  write-H : (e : Option StatusError) (s : State) → H s → H (write_status running e s)
  write-H e s h =
      same-H s (write_status running e s) (write_status-desk running e s)
        (write_status-On o (λ t. reports_of t ≡ reports_of s.trace)
          (keep-reports (reports_of s.trace)) running e s refl)
        h

  cleanup-H : (now : ℕ) (s : State) → H s → H (cleanup_logs_if_due o now s)
  unfolding cleanup_logs_if_due
  cleanup-H now s h =
      same-H s (cleanup_logs_if_due o now s)
        (cleanup_after-desk o s.config.global_.log_retention_days now s)
        (cleanup_logs_if_due-On o (λ t. reports_of t ≡ reports_of s.trace)
          (keep-reports (reports_of s.trace)) now s refl)
        h

  survived-H :
      (now : ℕ) (r : Option String × State)
      → H r.1
      → H (
          survived (
            chain r λ s1. (
              none,
              write_status running none
                  (record (cleanup_logs_if_due o now s1) { last_check_time = some now }),
            )))
  survived-H now (some e, s) h =
      write-H (some (record { code = "scheduler_tick_error"; message = e })) s h
  survived-H now (none, s) h =
      write-H none (record (cleanup_logs_if_due o now s) { last_check_time = some now })
        (cleanup-H now s h)

  tick-H : (now : ℕ) (s : State) → H s → H (tick o now s)
  unfolding tick tick_body check_and_run send_report_if_due
  tick-H now s h =
      let s1 = reload_if_changed o s in
      let h1 =
        same-H s s1 (reload_if_changed-desk o s)
          (reload_if_changed-On o (λ t. reports_of t ≡ reports_of s.trace)
            (keep-reports (reports_of s.trace)) s refl)
          h in
      survived-H now (check_and_run o now s1) (
        start_due-H now (send_report_if_due o now s1)
          (report_if-H s1.config.global_.notifications.report_schedule now s1 h1))

-- A tick, or the end of a run.
pub data Happening : Type 0 where
  ticked : ℕ → Happening
  run_ended : RunRecord → Happening

unfoldable pub happen : Outside → List Happening → State → State
unfolding tick cli_terminal_hook
happen o [] s = s
happen o (ticked now ∷ hs) s = happen o hs (tick o now s)
happen o (run_ended r ∷ hs) s = happen o hs (cli_terminal_hook o r s)

unfoldable pub ended_runs : List Happening → List RunRecord
ended_runs [] = []
ended_runs (ticked now ∷ hs) = ended_runs hs
ended_runs (run_ended r ∷ hs) = r ∷ ended_runs hs

module _ (o : Outside) (start : ℕ) where
  hook-Holds :
      (ended : List RunRecord) (r : RunRecord) (s : State)
      → Holds start ended (desk s) (reports_of s.trace)
      → Holds start
          (ended ++ r ∷ [])
          (desk (cli_terminal_hook o r s))
          (reports_of (cli_terminal_hook o r s).trace)
  unfolding cli_terminal_hook
  hook-Holds ended r s h = record {
    earlier = h.earlier;
    pending = h.pending ++ r ∷ [];
    split = ap (λ xs. xs ++ r ∷ []) h.split ∙ append_assoc h.earlier h.pending (r ∷ []);
    buffer =
        ap (λ xs. last_n report_buffer_limit (xs ++ r ∷ [])) h.buffer
        ∙ last_n-append report_buffer_limit h.pending (r ∷ []);
    told = h.told;
    began = h.began;
    memory = h.memory;
  }

  life :
      (hs : List Happening) (ended : List RunRecord) (s : State)
      → Holds start ended (desk s) (reports_of s.trace)
      → Holds start
          (ended ++ ended_runs hs)
          (desk (happen o hs s))
          (reports_of (happen o hs s).trace)
  unfolding happen ended_runs
  life [] ended s h =
      subst (λ xs. Holds start xs (desk s) (reports_of s.trace)) (sym (append-nil ended)) h
  life (ticked now ∷ hs) ended s h = life hs ended (tick o now s) (tick-H o start ended now s h)
  life (run_ended r ∷ hs) ended s h =
      let s1 = cli_terminal_hook o r s in
      let rest = life hs (ended ++ r ∷ []) s1 (hook-Holds ended r s h) in
      subst (λ xs. Holds start xs (desk (happen o hs s1)) (reports_of (happen o hs s1).trace))
        (append_assoc ended (r ∷ []) (ended_runs hs)) rest

  -- Whatever happens to a scheduler without a run history after its start: its reports and its
  -- buffer cut the runs that have ended into consecutive pieces, so that no run is reported twice,
  -- and each report is about the last runs of its piece, all of them if the buffer could hold them;
  -- the windows of the reports follow each other without a gap.
  pub happen-Holds :
      (hs : List Happening) (s : State)
      → s.start_time ≡ some start
      → s.persistent ≡ false
      → s.report_buffer ≡ []
      → s.last_report_window_end ≡ none
      → reports_of s.trace ≡ []
      → Holds start (ended_runs hs) (desk (happen o hs s)) (reports_of (happen o hs s).trace)
  happen-Holds hs s st p b e r = life hs [] s (record {
    earlier = [];
    pending = [];
    split = refl;
    buffer = b;
    told = subst (λ es. Covers start es [] s.last_report_window_end) (sym r) (refl, e);
    began = st;
    memory = p;
  })
