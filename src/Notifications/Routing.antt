-- ===== src/Notifications/Routing.antt =====
-- From the status of a run to the messages that its end leads to (services/terminal_hooks.py,
-- notifications/dispatcher.py and, for the calls of the hook, services/run_manager.py).
use dockkeep.Prelude.{
  ℕ, ◌≡◌, refl, sym, ap, subst, ◌∙◌, String, Bool, true, false, false≢true, if◌then◌else◌, Option,
  none, some, List, [], ◌∷◌, ◌++◌, append-nil,
}
use dockkeep.Prelude.Dict.{lookup}
use dockkeep.Config.{NotificationEventKind, success_event, error_event, skipped_event}
use dockkeep.Manager.{RunOrigin, RunStatus, Run}
use dockkeep.Manager.Steps.{Event, Hooks}
use dockkeep.Manager.Life.{told_of}
use dockkeep.Manager.Final.{after, notified-after}
use dockkeep.Notifications.Events.{NotificationEvent, NotificationContext, RunRecord, value}
use dockkeep.Notifications.Dispatcher.{Outlet, Sending, event, status_event_kinds, notify}
use dockkeep.Notifications.Terminal.{
  MessageField, failure_message, sent_by, success_message, skipped_message,
  unexpected_error_message, event_of, terminal_notification_hook,
}
use dockkeep.Notifications.Delivery.{to_each, receivers, none_receive, notify-Delivers}

-- The kind of event that a run with this status is.
unfoldable pub kind_of : RunStatus → Option NotificationEventKind
kind_of RunStatus.success = some success_event
kind_of RunStatus.skipped = some skipped_event
kind_of RunStatus.failed = some error_event
kind_of RunStatus.lock_error = some error_event
kind_of RunStatus.config_error = some error_event
kind_of RunStatus.unexpected_error = some error_event
kind_of _ = none

-- One event about this run was sent to exactly the providers that are to get events of the kind.
pub record Tells (r : RunRecord) (c : NotificationContext) (kind : Option NotificationEventKind)
    (done now : List Sending) : Type 0 where
  pub told : NotificationEvent
  pub same_job : told.job_name ≡ r.job
  pub same_task : told.task_name ≡ c.task_name
  pub same_run : told.dry_run ≡ r.dry_run
  pub sendings : now ≡ done ++ to_each (event told) (receivers c.policy kind c.providers)

-- The record `r` when its run has this status, was started then, and has this context.
abbrev pub ended_with : RunRecord → NotificationContext → ℕ → RunStatus → RunRecord
ended_with r c started_at status = record r {
  status = status;
  started_at = some started_at;
  notify_ctx = some c;
}

-- The calls of the terminal hook, one for each of these statuses.
unfoldable pub hook_calls :
    Outlet → RunRecord → NotificationContext → ℕ → List RunStatus → List Sending → List Sending
unfolding terminal_notification_hook
hook_calls o r c started_at [] done = done
hook_calls o r c started_at (s ∷ ss) done =
    hook_calls o r c started_at ss (terminal_notification_hook o (ended_with r c started_at s) done)

module _ (o : Outlet) (r : RunRecord) (c : NotificationContext) (started_at : ℕ) where
  tell :
      (s : RunStatus) (status : String) (field : MessageField) (done : List Sending)
      → Tells r c (lookup status status_event_kinds) done (
          sent_by
            (notify o c.providers
              (event_of (ended_with r c started_at s) c started_at status field)
              c.policy
              done)
            done)
  unfolding event_of
  tell s status field done =
      let e = event_of (ended_with r c started_at s) c started_at status field in
      let d = notify-Delivers o c.providers e c.policy done in
      record {
        told = e;
        same_job = refl;
        same_task = refl;
        same_run = refl;
        sendings = ap (λ x. sent_by x done) d.1.0 ∙ d.1.1.sendings;
      }

  tell_nothing : (done : List Sending) → Tells r c none done done
  unfolding event_of
  tell_nothing done = record {
    told = event_of r c started_at "" failure_message;
    same_job = refl;
    same_task = refl;
    same_run = refl;
    sendings =
        sym (append-nil done)
        ∙ ap (λ ps. done ++ to_each (event (event_of r c started_at "" failure_message)) ps)
            (sym (none_receive c.policy c.providers));
  }

  -- The end of a run with this status sends one event about it to exactly the providers that are to
  -- get events of the status's kind; a run that was cancelled or has not ended sends nothing.
  pub terminal_notification_hook-Tells :
      (s : RunStatus) (done : List Sending)
      → Tells r c (kind_of s) done (terminal_notification_hook o (ended_with r c started_at s) done)
  unfolding kind_of terminal_notification_hook value lookup
  terminal_notification_hook-Tells RunStatus.queued done = tell_nothing done
  terminal_notification_hook-Tells RunStatus.running done = tell_nothing done
  terminal_notification_hook-Tells RunStatus.cancelled done = tell_nothing done
  terminal_notification_hook-Tells RunStatus.success done =
      tell RunStatus.success "success" success_message done
  terminal_notification_hook-Tells RunStatus.failed done =
      tell RunStatus.failed "failure" failure_message done
  terminal_notification_hook-Tells RunStatus.skipped done =
      tell RunStatus.skipped "skipped" skipped_message done
  terminal_notification_hook-Tells RunStatus.lock_error done =
      tell RunStatus.lock_error "lock_error" failure_message done
  terminal_notification_hook-Tells RunStatus.config_error done =
      tell RunStatus.config_error "config_error" failure_message done
  terminal_notification_hook-Tells RunStatus.unexpected_error done =
      tell RunStatus.unexpected_error "unexpected_error" unexpected_error_message done

  called-Tells :
      (b : Bool) (s : RunStatus) (done : List Sending)
      → b ≡ true
      → Tells r c (kind_of s) done (hook_calls o r c started_at (if b then s ∷ [] else []) done)
  unfolding hook_calls
  called-Tells true s done t = terminal_notification_hook-Tells s done
  called-Tells false s done t = absurd (false≢true t)

  told-Tells :
      (h : Hooks) (s : RunStatus) (done : List Sending)
      → h.on_terminal ≡ true
      → Tells r c (kind_of s) done (hook_calls o r c started_at (told_of h s) done)
  unfolding hook_calls kind_of
  told-Tells h RunStatus.queued done t = tell_nothing done
  told-Tells h RunStatus.running done t = tell_nothing done
  told-Tells h RunStatus.success done t = called-Tells h.on_terminal RunStatus.success done t
  told-Tells h RunStatus.failed done t = called-Tells h.on_terminal RunStatus.failed done t
  told-Tells h RunStatus.cancelled done t = called-Tells h.on_terminal RunStatus.cancelled done t
  told-Tells h RunStatus.skipped done t = called-Tells h.on_terminal RunStatus.skipped done t
  told-Tells h RunStatus.lock_error done t = called-Tells h.on_terminal RunStatus.lock_error done t
  told-Tells h RunStatus.config_error done t =
      called-Tells h.on_terminal RunStatus.config_error done t
  told-Tells h RunStatus.unexpected_error done t =
      called-Tells h.on_terminal RunStatus.unexpected_error done t

  -- Whatever happens to a run with a terminal hook, and in any order: the calls of its terminal hook
  -- send one event about it to exactly the providers that are to get events of the kind of its
  -- status, and nothing while the run is active or if it was cancelled.
  pub hook_calls-Tells :
      (h : Hooks) (origin : RunOrigin) (events : List Event) (run : Run) (done : List Sending)
      → after h origin events ≡ some run
      → h.on_terminal ≡ true
      → Tells r c (kind_of run.status) done (hook_calls o r c started_at run.notified done)
  hook_calls-Tells h origin events run done e t =
      subst (λ ss. Tells r c (kind_of run.status) done (hook_calls o r c started_at ss done))
        (sym (notified-after h origin events run e)) (told-Tells h run.status done t)
