-- ===== src/Lib.antt =====
-- Dockkeep runs restic backups and rclone transfers, by hand or on a schedule. This library models
-- the part that decides what is run, in which order and under which locks.
--
-- The parts, and where they are modelled (paths of the repository):
-- - Targets: src/utils/targets.py, the selectors of manual runs.
-- - Config: src/models/resolved_config.py, the records that the runtime executes.
-- - Executors: src/executors/ with src/utils/restic.py and src/utils/rclone.py. Executors.Commands
--   has the command lines, Restic the environment and the repository, Backup the three restic
--   operations, Rclone the transfer with its guard, and Hooks the hook scripts. Shlex is Python's
--   `shlex.split`.
-- - Locking: src/core/locking.py and `_acquire_with_retry` of src/core/job_runner.py, from the
--   identifier of a resource to the lock files of a run.
-- - Engine: src/core/workflow.py, the class WorkflowEngine. It calls the executors, and the job
--   runner through the callbacks of a tracked step.
-- - Runner: src/core/job_runner.py, the class JobRunner: callbacks in Runner, the entry points
--   `run_backup`, `run_step` and `run_workflow` in Runner.Run. It takes the locks, and runs the
--   engine between the job's hooks.
-- - Stream: src/core/stream_logging.py, the two buffers of the output of a process.
-- - Manager: src/services/run_manager.py, the life of one run. `_execute`, `_finish` and the callbacks
--   of tasks are cut at their awaits; an event says which await ends, and Manager.Steps says what
--   the code does next. The operation of a run is the job runner's, whose exceptions are results here.
--
-- - Notifications: src/notifications/ with src/services/terminal_hooks.py, from the end of a run to the
--   sends of the providers.
-- - Scheduler: src/scheduler/cron.py, the class CronScheduler. Due tests a schedule, Tasks and Reports
--   are what a tick does, Status the status file and the reload, Tick and Start the loop and its lock.
--   Health is src/scheduler/status.py, the status file, from the value that is written to the reader.
-- - Resolver: src/models/config_fields.py (Fields) and src/models/resolve.py (Levels and Assemble).
-- - Validation: the rules and warnings of src/utils/validation.py on the resolved configuration.
--
-- The scheduler loads a configuration that the resolver has made and the validation has accepted,
-- starts its tasks through the run manager, whose terminal hook sends the notifications; the tasks
-- are runs of the job runner. The scheduler, the manager and the dispatcher each have a state of
-- their own, and what they ask from outside is a record of functions of what has happened.
--
-- Effects has what the job runner and the parts below it share. An action is a function from a world to an outcome, a value or an
-- exception, and a world; a world holds the trace of what has happened, the lock files held, and
-- the fields that WorkflowEngine and JobRunner change. What lies outside the program (processes,
-- lock files, the file system, the run history, the callbacks, JSON) is a record `Outside` of
-- functions that may depend on the whole trace; a theorem for every `Outside` covers failures and
-- cancellations at every point. SHA-256 is a parameter of the settings.
--
-- Bounds: the decimal digits of a number n are taken with n + 1 steps, which is enough since each
-- step divides by ten; the retry of locks is a recursion on the attempts that are left. Nothing
-- else has fuel.
--
-- Not modelled: logging; the counters of a backup summary, which are only logged; exceptions of
-- `Path.exists`, and of `Path.resolve` except for the resources of a run; characters outside ASCII in
-- `strip` and `lower`; the arguments of a callback that the runner only passes on. src/core/subprocesses.py with the asyncio pipes
-- below it is the parameter `process`. Of a run record, the times; of the run manager, listing,
-- `join` and `wait_briefly`. In the scheduler, a tick
-- is one step: runs that end while it waits for a provider are taken to end after it, and the
-- times that it writes to the status file are left out. In the configuration, the raw models are functions from the names of
-- their fields, since pydantic checks them. The owner of the
-- scheduler, the JSON text of the status file, TOML and the paths of the raw
-- configuration, the texts of messages, the run history, restores, the command line and the web
-- interface are not part of the library yet.
pub mod Prelude
pub mod Config
pub mod Effects
pub mod Shlex
pub mod Targets
pub mod Executors
pub mod Locking
pub mod Engine
pub mod Runner
pub mod Stream
pub mod Manager
pub mod Notifications
pub mod Scheduler
pub mod Resolver
pub mod Validation
mod Examples
