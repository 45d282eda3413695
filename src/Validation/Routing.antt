-- ===== src/Validation/Routing.antt =====
-- `_requested_event_kinds` and `_notification_routing_warnings`, and what the dispatcher does with a
-- configuration that is not warned about.
use dockkeep.Prelude.{
  ◌≡◌, ◌≢◌, ◌⊎◌, refl, sym, subst, String, Bool, true, false, false≢true, not, ◌&&◌, ◌||◌, Option,
  none, some, List, [], ◌∷◌, ◌++◌, if◌then◌else◌, inl, inr,
}
use dockkeep.Prelude.Dict.{Dict}
use dockkeep.Config.{
  NotificationEventKind, success_event, error_event, skipped_event, report_event,
  NotificationsConfig, BackupConfig, WorkflowConfig, RcloneTaskConfig, JobConfig, AppConfig,
}
use dockkeep.Notifications.Events.{Provider, build_providers, notification_policy}
use dockkeep.Notifications.Dispatcher.{carries}
use dockkeep.Notifications.Delivery.{receivers, is_receiver}

-- The notification settings of the tasks, in the order of the code.
backup_settings : Dict BackupConfig → List NotificationsConfig
backup_settings [] = []
backup_settings ((name, b) ∷ bs) = b.notifications ∷ backup_settings bs

workflow_settings : Dict WorkflowConfig → List NotificationsConfig
workflow_settings [] = []
workflow_settings ((name, w) ∷ ws) = w.notifications ∷ workflow_settings ws

rclone_settings : Dict RcloneTaskConfig → List NotificationsConfig
rclone_settings [] = []
rclone_settings ((name, r) ∷ rs) = r.notifications ∷ rclone_settings rs

unfoldable pub task_settings : Dict JobConfig → List NotificationsConfig
unfolding backup_settings workflow_settings rclone_settings
task_settings [] = []
task_settings ((name, j) ∷ js) =
    backup_settings j.backup
    ++ (workflow_settings j.workflows ++ (rclone_settings j.rclone ++ task_settings js))

-- Whether a task asks for events of a kind (`_requested_task_event_kinds`).
unfoldable pub requests : NotificationEventKind → NotificationsConfig → Bool
requests success_event n = n.notify_on_success
requests error_event n = n.notify_on_error
requests skipped_event n = n.notify_on_skipped
requests report_event n = false

unfoldable pub any_requests : NotificationEventKind → List NotificationsConfig → Bool
unfolding requests
any_requests kind [] = false
any_requests kind (n ∷ ns) = requests kind n || any_requests kind ns

abbrev pub is_scheduled : Option String → Bool
is_scheduled none = false
is_scheduled (some s) = true

-- `kind in _requested_event_kinds(config)`
unfoldable pub is_requested : AppConfig → NotificationEventKind → Bool
unfolding any_requests task_settings
is_requested c report_event = is_scheduled c.global_.notifications.report_schedule
is_requested c kind = any_requests kind (task_settings c.jobs)

unfoldable pub any_carries : NotificationEventKind → List Provider → Bool
unfolding carries
any_carries kind [] = false
any_carries kind (p ∷ ps) = carries kind p.events || any_carries kind ps

-- The kinds that are warned about, in the order of `_EVENT_KIND_TRIGGERS`.
abbrev pub event_kinds : List NotificationEventKind
event_kinds = success_event ∷ error_event ∷ skipped_event ∷ report_event ∷ []

unfoldable pub warned_kinds : AppConfig → List NotificationEventKind → List NotificationEventKind
unfolding is_requested any_carries build_providers
warned_kinds c [] = []
warned_kinds c (kind ∷ kinds) =
    let rest = warned_kinds c kinds in
    if is_requested c kind && not (any_carries kind (build_providers c.global_.notifications))
    then kind ∷ rest
    else rest

unfoldable pub routing_warnings : AppConfig → List NotificationEventKind
unfolding warned_kinds
routing_warnings c = warned_kinds c event_kinds

unwarned :
    (b : Bool) (kind : NotificationEventKind) (rest : List NotificationEventKind)
    → ◌≡◌ {A = List NotificationEventKind} (if b then kind ∷ rest else rest) []
    → (b ≡ false) × (rest ≡ [])
unwarned true kind rest e = absurd (cc e)
unwarned false kind rest e = (refl, e)

carried_then : (r c : Bool) → (r && not c) ≡ false → r ≡ true → c ≡ true
carried_then true true e h = refl
carried_then true false e h = sym e
carried_then false c e h = absurd (false≢true h)

module _ (c : AppConfig) where
  abbrev Carried : NotificationEventKind → Type 0
  Carried kind =
      is_requested c kind ≡ true → any_carries kind (build_providers c.global_.notifications) ≡ true

  kinds-Carried :
      routing_warnings c ≡ []
      → Carried success_event
        × (Carried error_event × (Carried skipped_event × Carried report_event))
  unfolding routing_warnings warned_kinds
  kinds-Carried e =
      let p = build_providers c.global_.notifications in
      let bad : NotificationEventKind → Bool = λ k. is_requested c k && not (any_carries k p) in
      let s = unwarned (bad success_event) success_event _ e in
      let r = unwarned (bad error_event) error_event _ s.1 in
      let k = unwarned (bad skipped_event) skipped_event _ r.1 in
      let t = unwarned (bad report_event) report_event _ k.1 in
      (
        carried_then (is_requested c success_event) (any_carries success_event p) s.0,
        (
          carried_then (is_requested c error_event) (any_carries error_event p) r.0,
          (
            carried_then (is_requested c skipped_event) (any_carries skipped_event p) k.0,
            carried_then (is_requested c report_event) (any_carries report_event p) t.0,
          ),
        ),
      )

  kind-Carried : (kind : NotificationEventKind) → routing_warnings c ≡ [] → Carried kind
  kind-Carried success_event e = (kinds-Carried e).0
  kind-Carried error_event e = (kinds-Carried e).1.0
  kind-Carried skipped_event e = (kinds-Carried e).1.1.0
  kind-Carried report_event e = (kinds-Carried e).1.1.1

-- Some settings are among those of the tasks.
abbrev pub Listed : NotificationsConfig → List NotificationsConfig → Type 0
Listed n [] = ⊥
Listed n (m ∷ ms) = (n ≡ m) ⊎ Listed n ms

or_right : (a b : Bool) → b ≡ true → (a || b) ≡ true
or_right true b h = refl
or_right false b h = h

or_left : (a b : Bool) → a ≡ true → (a || b) ≡ true
or_left true b h = refl
or_left false b h = absurd (false≢true h)

requested_by :
    (kind : NotificationEventKind) (n : NotificationsConfig) (ns : List NotificationsConfig)
    → Listed n ns
    → requests kind n ≡ true
    → any_requests kind ns ≡ true
unfolding any_requests
requested_by kind n [] l h = absurd l
requested_by kind n (m ∷ ms) (inl e) h =
    or_left (requests kind m) (any_requests kind ms) (subst (λ x. requests kind x ≡ true) e h)
requested_by kind n (m ∷ ms) (inr l) h =
    or_right (requests kind m) (any_requests kind ms) (requested_by kind n ms l h)

is_requested_by :
    (c : AppConfig) (kind : NotificationEventKind) (n : NotificationsConfig)
    → Listed n (task_settings c.jobs)
    → requests kind n ≡ true
    → is_requested c kind ≡ true
unfolding is_requested requests
is_requested_by c success_event n l h = requested_by success_event n (task_settings c.jobs) l h
is_requested_by c error_event n l h = requested_by error_event n (task_settings c.jobs) l h
is_requested_by c skipped_event n l h = requested_by skipped_event n (task_settings c.jobs) l h
is_requested_by c report_event n l h = absurd (false≢true h)

split_or : (a b : Bool) → (a || b) ≡ true → (a ≡ true) ⊎ (b ≡ true)
split_or true b h = inl refl
split_or false b h = inr h

-- A list that an element was put on or kept from is not empty if it was put on, or the rest is not.
put_on : (b : Bool) (p : Provider) (ps : List Provider) → b ≡ true → (if b then p ∷ ps else ps) ≢ []
put_on true p ps h e = cc e
put_on false p ps h e = false≢true h

kept_on : (b : Bool) (p : Provider) (ps : List Provider) → ps ≢ [] → (if b then p ∷ ps else ps) ≢ []
kept_on true p ps h e = cc e
kept_on false p ps h e = h e

receives :
    (kind : NotificationEventKind) (n : NotificationsConfig) (p : Provider)
    → requests kind n ≡ true
    → carries kind p.events ≡ true
    → is_receiver (notification_policy n) (some kind) p ≡ true
unfolding requests is_receiver notification_policy
receives success_event n p h k = rw (h, k) refl
receives error_event n p h k = rw (h, k) refl
receives skipped_event n p h k = rw (h, k) refl
receives report_event n p h k = absurd (false≢true h)

some_receive :
    (kind : NotificationEventKind) (n : NotificationsConfig) (ps : List Provider)
    → requests kind n ≡ true
    → any_carries kind ps ≡ true
    → receivers (notification_policy n) (some kind) ps ≢ []
unfolding any_carries receivers
some_receive kind n [] h k e = false≢true k
some_receive kind n (p ∷ ps) h k e =
    let policy = notification_policy n in
    elim (split_or (carries kind p.events) (any_carries kind ps) k) [
      | inl x ↦
          put_on (is_receiver policy (some kind) p) p (receivers policy (some kind) ps)
            (receives kind n p h x) e
      | inr x ↦
          kept_on (is_receiver policy (some kind) p) p (receivers policy (some kind) ps)
            (some_receive kind n ps h x) e
    ]

-- If a configuration is not warned about its routing, every event that a task asks for has a provider
-- that the dispatcher sends it to.
pub routing_warnings-receivers :
    (c : AppConfig) (kind : NotificationEventKind) (n : NotificationsConfig)
    → routing_warnings c ≡ []
    → Listed n (task_settings c.jobs)
    → requests kind n ≡ true
    → receivers (notification_policy n) (some kind) (build_providers c.global_.notifications) ≢ []
routing_warnings-receivers c kind n e l h =
    some_receive kind n (build_providers c.global_.notifications) h
      (kind-Carried c kind e (is_requested_by c kind n l h))
