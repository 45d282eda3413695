-- ===== src/Executors/Commands.antt =====
-- The command lines of restic and rclone: `_build_command` of executors/backup.py, forget.py,
-- prune.py and rclone.py. An argument list that cannot be read raises.
use dockkeep.Prelude.{
  ℕ, String, Bool, true, false, Option, none, some, List, [], ◌∷◌, ◌++◌, ◌<>◌, str,
}
use dockkeep.Config.{BackupConfig, RcloneTaskConfig, RetentionConfig}
use dockkeep.Effects.{Outcome, ok, raised}
use dockkeep.Executors.{normalize_extra_args}

-- A flag with its value, if there is one.
abbrev pub opt_flag : String → Option String → List String
opt_flag flag none = []
opt_flag flag (some v) = flag ∷ v ∷ []

abbrev pub opt_count : String → Option ℕ → List String
opt_count flag none = []
opt_count flag (some n) = flag ∷ str n ∷ []

-- A flag before each value.
abbrev pub each_flag : String → List String → List String
each_flag flag [] = []
each_flag flag (v ∷ vs) = flag ∷ v ∷ each_flag flag vs

-- A flag that is set only by `True`.
abbrev pub opt_switch : String → Option Bool → List String
opt_switch flag (some true) = flag ∷ []
opt_switch flag _ = []

abbrev pub excludes : List String → List String
excludes [] = []
excludes (p ∷ ps) = ("--exclude=" <> p) ∷ excludes ps

abbrev pub dry_run_flag : Bool → List String
dry_run_flag true = "--dry-run" ∷ []
dry_run_flag false = []

-- The sources stand behind `--`, so that none is read as a flag.
abbrev pub source_args : List String → List String
source_args [] = []
source_args (s ∷ ss) = "--" ∷ s ∷ ss

-- The command up to the extra arguments, those, and what stands behind them.
abbrev pub with_extra : List String → Outcome (List String) → List String → Outcome (List String)
with_extra cmd (ok extra) after = ok (cmd ++ (extra ++ after))
with_extra cmd (raised e) after = raised e

abbrev pub backup_flags : String → BackupConfig → Bool → List String
backup_flags repository config dry_run =
    "restic"
    ∷ "--repo"
    ∷ repository
    ∷ "backup"
    ∷ "--json"
    ∷ (each_flag "--files-from" config.input.source_files
        ++ (excludes config.filters.exclude
            ++ (each_flag "--exclude-file" config.filters.exclude_files
                ++ (opt_switch "--exclude-caches" config.restic.exclude_caches
                    ++ (opt_switch "--one-file-system" config.restic.one_file_system
                        ++ (each_flag "--tag" config.tags ++ dry_run_flag dry_run))))))

unfoldable pub build_backup_command :
    Bool → List String → String → BackupConfig → Outcome (List String)
build_backup_command dry_run sources repository config =
    with_extra (backup_flags repository config dry_run)
      (normalize_extra_args config.restic.extra_backup_args) (source_args sources)

abbrev pub keep_flags : RetentionConfig → List String
keep_flags r =
    opt_count "--keep-last" r.keep_last
    ++ (opt_count "--keep-hourly" r.keep_hourly
        ++ (opt_count "--keep-daily" r.keep_daily
            ++ (opt_count "--keep-weekly" r.keep_weekly
                ++ (opt_count "--keep-monthly" r.keep_monthly
                    ++ (opt_count "--keep-yearly" r.keep_yearly
                        ++ (opt_flag "--keep-within" r.keep_within
                            ++ (opt_flag "--keep-within-hourly" r.keep_within_hourly
                                ++ (opt_flag "--keep-within-daily" r.keep_within_daily
                                    ++ (opt_flag "--keep-within-weekly" r.keep_within_weekly
                                        ++ (opt_flag "--keep-within-monthly" r.keep_within_monthly
                                            ++ opt_flag "--keep-within-yearly"
                                                r.keep_within_yearly))))))))))

abbrev pub forget_flags : String → BackupConfig → Bool → List String
forget_flags repository config dry_run =
    "restic"
    ∷ "--repo"
    ∷ repository
    ∷ "forget"
    ∷ (keep_flags config.retention ++ dry_run_flag dry_run)

unfoldable pub build_forget_command : Bool → String → BackupConfig → Outcome (List String)
build_forget_command dry_run repository config =
    with_extra (forget_flags repository config dry_run)
      (normalize_extra_args config.restic.extra_forget_args) []

abbrev pub prune_flags : String → Bool → List String
prune_flags repository dry_run = "restic" ∷ "--repo" ∷ repository ∷ "prune" ∷ dry_run_flag dry_run

unfoldable pub build_prune_command : Bool → String → BackupConfig → Outcome (List String)
build_prune_command dry_run repository config =
    with_extra (prune_flags repository dry_run)
      (normalize_extra_args config.restic.extra_prune_args) []

-- `"sync" if config.sync_delete else "copy"`
abbrev pub subcommand : Option Bool → String
subcommand (some true) = "sync"
subcommand _ = "copy"

abbrev pub rclone_flags : RcloneTaskConfig → Bool → List String
rclone_flags config dry_run =
    "rclone"
    ∷ subcommand config.sync_delete
    ∷ config.source
    ∷ config.target
    ∷ (opt_count "--transfers" config.options.transfers
        ++ (opt_count "--checkers" config.options.checkers
            ++ (opt_flag "--bwlimit" config.options.bwlimit
                ++ (each_flag "--exclude" config.exclude
                    ++ (opt_flag "--filter-from" config.filter_from ++ dry_run_flag dry_run)))))

unfoldable pub build_rclone_command : Bool → RcloneTaskConfig → Outcome (List String)
build_rclone_command dry_run config =
    with_extra (rclone_flags config dry_run) (normalize_extra_args config.options.extra_args) []
