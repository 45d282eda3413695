-- ===== src/Notifications/Dispatcher.antt =====
-- notifications/dispatcher.py: the class NotificationDispatcher. What a provider answers may depend
-- on everything that was sent before.
use dockkeep.Prelude.{
  ℕ, suc, String, Bool, true, false, Option, none, some, List, [], ◌∷◌, ◌++◌, ◌||◌, if◌then◌else◌,
  ◌=ℕ=◌,
}
use dockkeep.Prelude.Dict.{Dict, lookup}
use dockkeep.Config.{NotificationEventKind, success_event, error_event, skipped_event, report_event}
use dockkeep.Notifications.Events.{
  NotificationPolicy, NotificationEvent, ReportEvent, DispatchResult, Provider,
}

-- `_STATUS_EVENT_KINDS`
abbrev pub status_event_kinds : Dict NotificationEventKind
status_event_kinds =
    ("success", success_event)
    ∷ ("failure", error_event)
    ∷ ("lock_error", error_event)
    ∷ ("config_error", error_event)
    ∷ ("unexpected_error", error_event)
    ∷ ("skipped", skipped_event)
    ∷ []

pub data Message : Type 0 where
  event : NotificationEvent → Message
  report : ReportEvent → Message

-- One call of `send` or `send_report`: the provider and the message.
abbrev pub Sending : Type 0
Sending = String × Message

pub data SendResult : Type 0 where
  sent timed_out not_sent : SendResult

-- The providers' answers.
abbrev pub Outlet : Type 0
Outlet = List Sending → Sending → SendResult

unfoldable pub permitted : NotificationPolicy → Option NotificationEventKind → Bool
permitted policy (some success_event) = policy.notify_on_success
permitted policy (some error_event) = policy.notify_on_error
permitted policy (some skipped_event) = policy.notify_on_skipped
permitted policy (some report_event) = false
permitted policy none = false

unfoldable pub should_notify : String → NotificationPolicy → Bool
unfolding permitted
should_notify status policy = permitted policy (lookup status status_event_kinds)

abbrev kind_number : NotificationEventKind → ℕ
kind_number success_event = 0
kind_number error_event = 1
kind_number skipped_event = 2
kind_number report_event = 3

abbrev pub same_kind : NotificationEventKind → NotificationEventKind → Bool
same_kind a b = kind_number a =ℕ= kind_number b

unfoldable pub has_kind : List NotificationEventKind → NotificationEventKind → Bool
has_kind [] k = false
has_kind (j ∷ js) k = same_kind j k || has_kind js k

-- `p.events is None or kind in p.events`
unfoldable pub carries : NotificationEventKind → Option (List NotificationEventKind) → Bool
unfolding has_kind
carries kind none = true
carries kind (some kinds) = has_kind kinds kind

unfoldable pub carrying_providers : List Provider → NotificationEventKind → List Provider
unfolding carries
carrying_providers [] kind = []
carrying_providers (p ∷ ps) kind =
    let rest = carrying_providers ps kind in if carries kind p.events then p ∷ rest else rest

abbrev pub counted : SendResult → DispatchResult → DispatchResult
counted sent r = record {
  attempted = suc r.attempted;
  succeeded = suc r.succeeded;
  failed = r.failed;
}
counted _ r = record { attempted = suc r.attempted; succeeded = r.succeeded; failed = suc r.failed }

abbrev pub nothing_sent : DispatchResult
nothing_sent = record { attempted = 0; succeeded = 0; failed = 0 }

-- The loop over the providers, from what was sent and counted before.
unfoldable pub send_each :
    Outlet → Message → List Provider → DispatchResult → List Sending → DispatchResult × List Sending
send_each o m [] r done = (r, done)
send_each o m (p ∷ ps) r done =
    send_each o m ps (counted (o done (p.name, m)) r) (done ++ (p.name, m) ∷ [])

-- The providers that carry the kind, where there are any.
unfoldable pub dispatch :
    Outlet
    → Message
    → List Provider
    → NotificationEventKind
    → List Sending
    → DispatchResult × List Sending
unfolding carrying_providers send_each
dispatch o m [] kind done = (nothing_sent, done)
dispatch o m (p ∷ ps) kind done = send_each o m (carrying_providers (p ∷ ps) kind) nothing_sent done

-- `kind = _STATUS_EVENT_KINDS[event.status]` raises KeyError for another status: `none`.
unfoldable pub dispatch_status :
    Outlet
    → Message
    → List Provider
    → Option NotificationEventKind
    → List Sending
    → Option (DispatchResult × List Sending)
unfolding dispatch
dispatch_status o m [] kind done = some (nothing_sent, done)
dispatch_status o m (p ∷ ps) none done = none
dispatch_status o m (p ∷ ps) (some kind) done = some (dispatch o m (p ∷ ps) kind done)

-- `none` is an exception.
unfoldable pub notify :
    Outlet
    → List Provider
    → NotificationEvent
    → NotificationPolicy
    → List Sending
    → Option (DispatchResult × List Sending)
unfolding should_notify dispatch_status
notify o ps e policy done =
    if should_notify e.status policy
    then dispatch_status o (event e) ps (lookup e.status status_event_kinds) done
    else some (nothing_sent, done)

unfoldable pub notify_report :
    Outlet → List Provider → ReportEvent → List Sending → DispatchResult × List Sending
unfolding dispatch
notify_report o ps e done = dispatch o (report e) ps report_event done
