-- ===== src/Examples/Validations.antt =====
-- The test job, accepted, with a provider for its errors.
use dockkeep.Prelude.{◌≢◌, refl, inl, some, none, [], ◌∷◌}
use dockkeep.Config.{AppConfig, ProvidersConfig, error_event, starttls}
use dockkeep.Notifications.Events.{build_providers, notification_policy}
use dockkeep.Notifications.Delivery.{receivers}
use dockkeep.Notifications.Dispatcher.{carries, has_kind}
use dockkeep.Validation.Routing.{
  routing_warnings, warned_kinds, is_requested, any_requests, requests, task_settings, any_carries,
  routing_warnings-receivers,
}
use dockkeep.Examples.{job, on_error}

abbrev mails : ProvidersConfig
mails = record {
  report_schedule = none;
  mail = some (record {
    host = "mail";
    port = 587;
    connection_security = starttls;
    username_env = none;
    password_env = none;
    from_addr = "a";
    to = "b" ∷ [];
    events = some (error_event ∷ []);
  });
  pushover = none;
}

abbrev app : AppConfig
app = record {
  global_ = record {
    log_level = "info";
    log_retention_days = none;
    lock_retry_count = some 2;
    lock_retry_delay = some 5;
    notifications = mails;
  };
  jobs = ("home", job) ∷ [];
}

routing_warnings-receivers_example :
    receivers (notification_policy on_error) (some error_event) (build_providers mails) ≢ []
unfolding routing_warnings warned_kinds is_requested any_requests requests task_settings any_carries
    build_providers carries has_kind
routing_warnings-receivers_example =
    routing_warnings-receivers app error_event on_error refl (inl refl) refl
