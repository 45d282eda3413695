-- ===== src/Notifications/Delivery.antt =====
-- Which providers are asked to send which message (notifications/dispatcher.py).
use dockkeep.Prelude.{
  suc, ◌+◌, ◌≡◌, refl, sym, ap, subst, ◌∙◌, Bool, true, false, ◌&&◌, Option, none, some, List, [],
  ◌∷◌, ◌++◌, map, append-nil, append_assoc, length, if◌then◌else◌, arith,
}
use dockkeep.Prelude.Dict.{lookup}
use dockkeep.Config.{NotificationEventKind, success_event, error_event, skipped_event, report_event}
use dockkeep.Notifications.Events.{
  NotificationPolicy, NotificationEvent, ReportEvent, DispatchResult, Provider,
}
use dockkeep.Notifications.Dispatcher.{
  status_event_kinds, Message, event, report, counted, Sending, SendResult, sent, timed_out,
  not_sent, Outlet, permitted, should_notify, carries, carrying_providers, nothing_sent, send_each,
  dispatch, dispatch_status, notify, notify_report,
}

-- One message for each of these providers, in their order.
abbrev pub to_each : Message → List Provider → List Sending
to_each m ps = map (λ p. (p.name, m)) ps

abbrev keep : (Provider → Bool) → List Provider → List Provider
keep f [] = []
keep f (p ∷ ps) = let rest = keep f ps in if f p then p ∷ rest else rest

-- Whether a provider is to get an event of this kind.
unfoldable pub is_receiver : NotificationPolicy → Option NotificationEventKind → Provider → Bool
is_receiver policy none p = false
is_receiver policy (some success_event) p =
    policy.notify_on_success && carries success_event p.events
is_receiver policy (some error_event) p = policy.notify_on_error && carries error_event p.events
is_receiver policy (some skipped_event) p =
    policy.notify_on_skipped && carries skipped_event p.events
is_receiver policy (some report_event) p = false

unfoldable pub receivers :
    NotificationPolicy → Option NotificationEventKind → List Provider → List Provider
unfolding is_receiver
receivers policy kind ps = keep (is_receiver policy kind) ps

pub none_receive :
    (policy : NotificationPolicy) (ps : List Provider) → receivers policy none ps ≡ []
unfolding receivers is_receiver
none_receive policy [] = refl
none_receive policy (p ∷ ps) = none_receive policy ps

-- Exactly these providers were asked to send the message, once each and in this order, and every
-- answer was counted.
pub record Delivers (m : Message) (ps : List Provider) (done : List Sending)
    (x : DispatchResult × List Sending) : Type 0 where
  pub sendings : x.1 ≡ done ++ to_each m ps
  pub attempts : x.0.attempted ≡ length ps
  pub answers : x.0.succeeded + x.0.failed ≡ x.0.attempted

counted-attempts : (a : SendResult) (r : DispatchResult) → (counted a r).attempted ≡ suc r.attempted
counted-attempts sent r = refl
counted-attempts timed_out r = refl
counted-attempts not_sent r = refl

counted-answers :
    (a : SendResult) (r : DispatchResult)
    → r.succeeded + r.failed ≡ r.attempted
    → (counted a r).succeeded + (counted a r).failed ≡ (counted a r).attempted
counted-answers sent r h = omega (arith, h)
counted-answers timed_out r h = omega (arith, h)
counted-answers not_sent r h = omega (arith, h)

record Sends (m : Message) (ps : List Provider) (r : DispatchResult) (done : List Sending)
    (x : DispatchResult × List Sending) : Type 0 where
  sendings : x.1 ≡ done ++ to_each m ps
  attempts : x.0.attempted ≡ r.attempted + length ps
  answers : r.succeeded + r.failed ≡ r.attempted → x.0.succeeded + x.0.failed ≡ x.0.attempted

send_each-Sends :
    (o : Outlet) (m : Message) (ps : List Provider) (r : DispatchResult) (done : List Sending)
    → Sends m ps r done (send_each o m ps r done)
unfolding send_each
send_each-Sends o m [] r done = record {
  sendings = sym (append-nil done);
  attempts = omega arith;
  answers = λ h. h;
}
send_each-Sends o m (p ∷ ps) r done =
    let a = o done (p.name, m) in
    let rest = send_each-Sends o m ps (counted a r) (done ++ (p.name, m) ∷ []) in
    record {
      sendings = rest.sendings ∙ append_assoc done ((p.name, m) ∷ []) (to_each m ps);
      attempts = rest.attempts ∙ omega (arith, counted-attempts a r);
      answers = λ h. rest.answers (counted-answers a r h);
    }

carrying-keep :
    (ps : List Provider) (kind : NotificationEventKind)
    → carrying_providers ps kind ≡ keep (λ p. carries kind p.events) ps
unfolding carrying_providers
carrying-keep [] kind = refl
carrying-keep (p ∷ ps) kind =
    ap (λ rest. if carries kind p.events then p ∷ rest else rest) (carrying-keep ps kind)

dispatch-Delivers :
    (o : Outlet) (m : Message) (ps : List Provider) (kind : NotificationEventKind)
    (done : List Sending)
    → Delivers m (keep (λ p. carries kind p.events) ps) done (dispatch o m ps kind done)
unfolding dispatch
dispatch-Delivers o m [] kind done = record {
  sendings = sym (append-nil done);
  attempts = refl;
  answers = refl;
}
dispatch-Delivers o m (p ∷ ps) kind done =
    let s = send_each-Sends o m (carrying_providers (p ∷ ps) kind) nothing_sent done in
    let same = carrying-keep (p ∷ ps) kind in
    record {
      sendings = s.sendings ∙ ap (λ qs. done ++ to_each m qs) same;
      attempts = s.attempts ∙ omega arith ∙ ap length same;
      answers = s.answers refl;
    }

keep_none : (ps : List Provider) → keep (λ p. false) ps ≡ []
keep_none [] = refl
keep_none (p ∷ ps) = keep_none ps

abbrev Sent :
    Message → List Provider → List Sending → Option (DispatchResult × List Sending) → Type 0
Sent m ps done none = ⊥
Sent m ps done (some x) = Delivers m ps done x

nothing-Delivers :
    (m : Message) (ps : List Provider) (done : List Sending)
    → Delivers m (keep (λ p. false) ps) done (nothing_sent, done)
nothing-Delivers m ps done = record {
  sendings = sym (ap (λ qs. done ++ to_each m qs) (keep_none ps) ∙ append-nil done);
  attempts = sym (ap length (keep_none ps));
  answers = refl;
}

allowed-Sent :
    (o : Outlet) (m : Message) (ps : List Provider) (allowed : Bool) (kind : NotificationEventKind)
    (done : List Sending)
    → Sent m
        (keep (λ p. allowed && carries kind p.events) ps)
        done
        (if allowed then dispatch_status o m ps (some kind) done else some (nothing_sent, done))
unfolding dispatch_status
allowed-Sent o m ps false kind done = nothing-Delivers m ps done
allowed-Sent o m [] true kind done = nothing-Delivers m [] done
allowed-Sent o m (p ∷ ps) true kind done = dispatch-Delivers o m (p ∷ ps) kind done

abbrev decided :
    Outlet
    → Message
    → List Provider
    → NotificationPolicy
    → Option NotificationEventKind
    → List Sending
    → Option (DispatchResult × List Sending)
decided o m ps policy kind done =
    if permitted policy kind then dispatch_status o m ps kind done else some (nothing_sent, done)

decided-Sent :
    (o : Outlet) (m : Message) (ps : List Provider) (policy : NotificationPolicy)
    (kind : Option NotificationEventKind) (done : List Sending)
    → Sent m (receivers policy kind ps) done (decided o m ps policy kind done)
unfolding permitted receivers is_receiver dispatch_status
decided-Sent o m ps policy none done = nothing-Delivers m ps done
decided-Sent o m ps policy (some success_event) done =
    allowed-Sent o m ps policy.notify_on_success success_event done
decided-Sent o m ps policy (some error_event) done =
    allowed-Sent o m ps policy.notify_on_error error_event done
decided-Sent o m ps policy (some skipped_event) done =
    allowed-Sent o m ps policy.notify_on_skipped skipped_event done
decided-Sent o m ps policy (some report_event) done = nothing-Delivers m ps done

of_Sent :
    (m : Message) (ps : List Provider) (done : List Sending)
    (r : Option (DispatchResult × List Sending))
    → Sent m ps done r
    → (x : DispatchResult × List Sending) × ((r ≡ some x) × Delivers m ps done x)
of_Sent m ps done none s = absurd s
of_Sent m ps done (some x) s = (x, (refl, s))

-- Whatever the providers answer, `notify` returns; it asks exactly the providers that are to get
-- an event of the status, in their order and once each, one that fails not stopping the next, and
-- counts every answer.
pub notify-Delivers :
    (o : Outlet) (ps : List Provider) (e : NotificationEvent) (policy : NotificationPolicy)
    (done : List Sending)
    → (x : DispatchResult × List Sending) × ((notify o ps e policy done ≡ some x)
        × Delivers (event e) (receivers policy (lookup e.status status_event_kinds) ps) done x)
unfolding notify should_notify
notify-Delivers o ps e policy done =
    let kind = lookup e.status status_event_kinds in
    of_Sent _ _ done _ (decided-Sent o (event e) ps policy kind done)

-- A report goes to exactly the providers that carry reports, in their order and once each.
pub notify_report-Delivers :
    (o : Outlet) (ps : List Provider) (e : ReportEvent) (done : List Sending)
    → Delivers (report e) (carrying_providers ps report_event) done (notify_report o ps e done)
unfolding notify_report
notify_report-Delivers o ps e done =
    subst (λ qs. Delivers (report e) qs done (notify_report o ps e done))
      (sym (carrying-keep ps report_event)) (dispatch-Delivers o (report e) ps report_event done)
