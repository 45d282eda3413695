-- ===== src/Scheduler.antt =====
-- scheduler/cron.py: the class CronScheduler, from the test of a schedule to the main loop.
pub mod Due
pub mod Ticks
pub mod Windowed
pub mod State
pub mod Status
pub mod Reports
pub mod Tasks
pub mod Tick
pub mod Start
pub mod Keeps
pub mod Guarded
pub mod Told
pub mod Starts
pub mod Counts
pub mod Buffer
pub mod Windows
pub mod Waits
pub mod Health
pub mod Shown
