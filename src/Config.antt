-- ===== src/Config.antt =====
-- models/resolved_config.py: the configuration that the runtime executes.
use dockkeep.Prelude.{ℕ, ℤ, String, Bool, Option, List}
use dockkeep.Prelude.Dict.{Dict}

pub record ExecutionConfig : Type 0 where
  pub retention : Bool
  pub cleanup : Bool
  pub auto_init : Bool

pub record Credentials : Type 0 where
  pub password : Option String
  pub password_env : Option String
  pub password_file : Option String

pub record InputConfig : Type 0 where
  pub sources : List String
  pub source_files : List String

pub record FiltersConfig : Type 0 where
  pub exclude : List String
  pub exclude_files : List String

pub record RetentionConfig : Type 0 where
  pub keep_last : Option ℕ
  pub keep_hourly : Option ℕ
  pub keep_daily : Option ℕ
  pub keep_weekly : Option ℕ
  pub keep_monthly : Option ℕ
  pub keep_yearly : Option ℕ
  pub keep_within : Option String
  pub keep_within_hourly : Option String
  pub keep_within_daily : Option String
  pub keep_within_weekly : Option String
  pub keep_within_monthly : Option String
  pub keep_within_yearly : Option String

pub record HooksConfig : Type 0 where
  pub pre_hooks : List String
  pub post_hooks : List String
  pub on_error_hooks : List String

pub record NotificationsConfig : Type 0 where
  pub notify_on_success : Bool
  pub notify_on_error : Bool
  pub notify_on_skipped : Bool

pub record TimeoutsConfig : Type 0 where
  pub backup_timeout : Option ℕ
  pub rclone_timeout : Option ℕ
  pub hook_timeout : Option ℕ

-- `restic` of `backend_options`, the only backend
pub record ResticOptions : Type 0 where
  pub exclude_caches : Option Bool
  pub one_file_system : Option Bool
  pub extra_backup_args : List String
  pub extra_forget_args : List String
  pub extra_prune_args : List String

pub record BackupConfig : Type 0 where
  pub repository : String
  pub schedule : Option String
  pub tags : List String
  pub credentials : Credentials
  pub input : InputConfig
  pub filters : FiltersConfig
  pub retention : RetentionConfig
  pub execution : ExecutionConfig
  pub hooks : HooksConfig
  pub notifications : NotificationsConfig
  pub timeouts : TimeoutsConfig
  pub restic : ResticOptions

pub record WorkflowConfig : Type 0 where
  pub schedule : Option String
  pub steps : List String
  pub hooks : HooksConfig
  pub notifications : NotificationsConfig
  pub timeouts : TimeoutsConfig

pub record RcloneOptions : Type 0 where
  pub transfers : Option ℕ
  pub checkers : Option ℕ
  pub bwlimit : Option String
  pub extra_args : List String

pub record RcloneTaskConfig : Type 0 where
  pub source : String
  pub target : String
  pub sync_delete : Option Bool
  pub exclude : List String
  pub filter_from : Option String
  pub schedule : Option String
  pub hooks : HooksConfig
  pub options : RcloneOptions
  pub notifications : NotificationsConfig
  pub timeouts : TimeoutsConfig

pub record JobConfig : Type 0 where
  pub backup : Dict BackupConfig
  pub rclone : Dict RcloneTaskConfig
  pub workflows : Dict WorkflowConfig
  pub hooks : HooksConfig
  pub notifications : NotificationsConfig
  pub timeouts : TimeoutsConfig

-- The kinds of events that a provider may be limited to.
pub data NotificationEventKind : Type 0 where
  success_event error_event skipped_event report_event : NotificationEventKind

pub data ConnectionSecurity : Type 0 where
  plain starttls ssl : ConnectionSecurity

pub record MailConfig : Type 0 where
  pub host : String
  pub port : ℕ
  pub connection_security : ConnectionSecurity
  pub username_env : Option String
  pub password_env : Option String
  pub from_addr : String
  pub to : List String
  pub events : Option (List NotificationEventKind)

pub record PushoverConfig : Type 0 where
  pub token_env : String
  pub user_key_env : String
  pub priority : ℤ
  pub sound : Option String
  pub device : Option String
  pub events : Option (List NotificationEventKind)

pub record ProvidersConfig : Type 0 where
  pub report_schedule : Option String
  pub mail : Option MailConfig
  pub pushover : Option PushoverConfig

pub record GlobalConfig : Type 0 where
  pub log_level : String
  pub log_retention_days : Option ℕ
  pub lock_retry_count : Option ℕ
  pub lock_retry_delay : Option ℕ
  pub notifications : ProvidersConfig

pub record AppConfig : Type 0 where
  pub global_ : GlobalConfig
  pub jobs : Dict JobConfig
