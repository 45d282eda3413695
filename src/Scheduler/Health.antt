-- ===== src/Scheduler/Health.antt =====
-- src/scheduler/status.py: the status file, and what a reader makes of it and of the lock. A JSON value
-- is modelled as far as the code looks into it; a deeper one counts by its `str` only.
use dockkeep.Prelude.{
  ℕ, suc, ◌+◌, ◌*◌, ◌-◌, String, Bool, true, false, ◌&&◌, Option, none, some, [], ◌∷◌, ◌==◌, leb,
  if◌then◌else◌, is_empty,
}
use dockkeep.Prelude.Dict.{Dict, lookup}

pub data ℤ : Type 0 where
  pos negsuc : ℕ → ℤ

pub data Scalar : Type 0 where
  null : Scalar
  flag : Bool → Scalar
  int : ℤ → Scalar
  -- a finite number, in nanoseconds
  float : ℤ → Scalar
  text : String → Scalar
  -- a list or a dict, by its `str`
  nested : String → Scalar

pub data Value : Type 0 where
  scalar : Scalar → Value
  object : Dict Scalar → Value

pub data SchedulerState : Type 0 where
  running stopped unknown config_error scheduler_lock_error : SchedulerState

pub data SchedulerOwner : Type 0 where
  gui scheduler_cli : SchedulerOwner

pub record SchedulerStatusError : Type 0 where
  pub code : String
  pub message : String

pub record SchedulerStatus : Type 0 where
  pub state : SchedulerState
  pub pid : Option ℤ
  pub started_at : Option String
  pub last_tick_at : Option String
  pub config_path : Option String
  pub config_mtime : Option ℤ
  pub owner : Option SchedulerOwner
  pub error : Option SchedulerStatusError
  pub version : ℤ

abbrev pub status_version : ℤ
status_version = pos 1

-- What the status file holds.
pub data Content : Type 0 where
  missing : Content
  -- the text of OSError, JSONDecodeError or UnicodeDecodeError
  broken : String → Content
  no_object : Content
  holding : Dict Value → Content

-- Times are in microseconds.
pub record Surroundings : Type 0 where
  -- `str` of a value that is no text
  pub str : Scalar → String
  -- `datetime.fromisoformat`, a naive time as UTC; `none` for ValueError
  pub fromisoformat : String → Option ℕ
  -- `isoformat` of a time in UTC
  pub isoformat : ℕ → String
  pub getpid : ℤ
  pub now : ℕ
  -- whether FileLock times out
  pub lock_held : Bool
  pub stale_after_seconds : ℕ

-- `SchedulerStatus.to_dict`
unfoldable pub state_text : SchedulerState → String
state_text running = "running"
state_text stopped = "stopped"
state_text unknown = "unknown"
state_text config_error = "config_error"
state_text scheduler_lock_error = "scheduler_lock_error"

unfoldable pub owner_value : Option SchedulerOwner → Value
owner_value none = scalar null
owner_value (some gui) = scalar (text "gui")
owner_value (some scheduler_cli) = scalar (text "scheduler-cli")

unfoldable pub text_value : Option String → Value
text_value none = scalar null
text_value (some t) = scalar (text t)

unfoldable pub int_value : Option ℤ → Value
int_value none = scalar null
int_value (some n) = scalar (int n)

unfoldable pub float_value : Option ℤ → Value
float_value none = scalar null
float_value (some n) = scalar (float n)

unfoldable pub error_value : Option SchedulerStatusError → Value
error_value none = scalar null
error_value (some e) = object (("code", text e.code) ∷ ("message", text e.message) ∷ [])

unfoldable pub to_dict : SchedulerStatus → Dict Value
to_dict s =
    ("state", scalar (text (state_text s.state)))
    ∷ ("pid", int_value s.pid)
    ∷ ("started_at", text_value s.started_at)
    ∷ ("last_tick_at", text_value s.last_tick_at)
    ∷ ("config_path", text_value s.config_path)
    ∷ ("config_mtime", float_value s.config_mtime)
    ∷ ("owner", owner_value s.owner)
    ∷ ("error", error_value s.error)
    ∷ ("version", scalar (int s.version))
    ∷ []

-- A key that is missing gives `None`.
abbrev pub get : String → Dict Value → Value
get key d = elim (lookup key d) [ none ↦ scalar null | some v ↦ v ]

-- A Boolean is an integer of Python.
abbrev number_of : Bool → ℤ
number_of b = if b then pos 1 else pos 0

unfoldable pub int_of : Value → Option ℤ
int_of (scalar (int n)) = some n
int_of (scalar (flag b)) = some (number_of b)
int_of _ = none

abbrev second : ℕ
second = 1000000000

abbrev to_float : ℤ → ℤ
to_float (pos n) = pos (n * second)
to_float (negsuc n) = negsuc (suc n * second - 1)

unfoldable pub float_of : Value → Option ℤ
float_of (scalar (float n)) = some n
float_of (scalar (int n)) = some (to_float n)
float_of (scalar (flag b)) = some (to_float (number_of b))
float_of _ = none

unfoldable pub text_of : Value → Option String
text_of (scalar (text t)) = some t
text_of _ = none

-- `none` is the TypeError of a value that has no hash.
unfoldable pub coerce_state : Value → Option SchedulerState
coerce_state (scalar (text t)) = some (
    if t == "running"
    then running
    else if t == "stopped"
    then stopped
    else if t == "config_error"
    then config_error
    else if t == "scheduler_lock_error"
    then scheduler_lock_error
    else unknown)
coerce_state (scalar (nested t)) = none
coerce_state (object d) = none
coerce_state _ = some unknown

unfoldable pub coerce_owner : Value → Option (Option SchedulerOwner)
coerce_owner (scalar (text t)) =
    some
      (if t == "gui" then some gui else if t == "scheduler-cli" then some scheduler_cli else none)
coerce_owner (scalar (nested t)) = none
coerce_owner (object d) = none
coerce_owner _ = some none

abbrev version_of : Option ℤ → ℤ
version_of none = status_version
version_of (some v) = v

-- `status.last_tick_at or status.started_at`
abbrev pub timestamp : Option String → Option String → Option String
timestamp none started = started
timestamp (some tick) started = if is_empty tick then started else some tick

abbrev pub nobody : SchedulerState → Option SchedulerStatusError → SchedulerStatus
nobody state error = record {
  state = state;
  pid = none;
  started_at = none;
  last_tick_at = none;
  config_path = none;
  config_mtime = none;
  owner = none;
  error = error;
  version = status_version;
}

unfoldable pub unknown_status : String → SchedulerStatus
unknown_status message = nobody unknown (some (record { code = "status_error"; message = message }))

-- The version is that of the class, not of the file.
unfoldable pub status_from_raw : Option SchedulerStatus → SchedulerState → SchedulerStatus
status_from_raw none state = nobody state none
status_from_raw (some s) state = record s { state = state; version = status_version }

abbrev pub is_gui : Option SchedulerOwner → Bool
is_gui (some gui) = true
is_gui _ = false

abbrev pub is_start_error : SchedulerState → Bool
is_start_error config_error = true
is_start_error scheduler_lock_error = true
is_start_error _ = false

abbrev pub is_lock_error : SchedulerState → Bool
is_lock_error scheduler_lock_error = true
is_lock_error _ = false

unfoldable pub evaluate : Bool → Bool → Option SchedulerStatus → SchedulerStatus
unfolding status_from_raw unknown_status
evaluate held fresh none =
    if held
    then unknown_status "Scheduler lock is held but status is missing or stale"
    else status_from_raw none stopped
evaluate false fresh (some s) =
    if fresh && is_gui s.owner && is_start_error s.state
    then s
    else status_from_raw (some s) stopped
evaluate true false (some s) =
    unknown_status "Scheduler lock is held but status is missing or stale"
evaluate true true (some s) = if is_lock_error s.state then s else status_from_raw (some s) running

pub data Reading : Type 0 where
  status : SchedulerStatus → Reading
  -- with `strict`, the exception of `read_file`
  raised : String → Reading
  -- a TypeError of `from_dict`, which `read` does not catch
  type_error : Reading

unfoldable pub unread : Bool → String → Reading
unfolding unknown_status
unread strict message = if strict then raised message else status (unknown_status message)

module _ (o : Surroundings) where
  abbrev str_of : Scalar → String
  str_of (text t) = t
  str_of v = o.str v

  abbrev str_or : String → Option Scalar → String
  str_or default none = default
  str_or default (some v) = str_of v

  unfoldable pub error_of : Value → Option SchedulerStatusError
  error_of (scalar v) = none
  error_of (object d) = some (record {
    code = str_or "unknown" (lookup "code" d);
    message = str_or "" (lookup "message" d);
  })

  unfoldable pub checked_status :
      Option SchedulerState → Option (Option SchedulerOwner) → Dict Value → Option SchedulerStatus
  unfolding error_of
  checked_status none owner d = none
  checked_status (some state) none d = none
  checked_status (some state) (some owner) d = some (record {
    state = state;
    pid = int_of (get "pid" d);
    started_at = text_of (get "started_at" d);
    last_tick_at = text_of (get "last_tick_at" d);
    config_path = text_of (get "config_path" d);
    config_mtime = float_of (get "config_mtime" d);
    owner = owner;
    error = error_of (get "error" d);
    version = version_of (int_of (get "version" d));
  })

  -- `none` is a TypeError
  unfoldable pub from_dict : Dict Value → Option SchedulerStatus
  from_dict d = checked_status (coerce_state (get "state" d)) (coerce_owner (get "owner" d)) d

  abbrev pub format_dt : Option ℕ → Option String
  format_dt none = none
  format_dt (some t) = some (o.isoformat t)

  -- `SchedulerStatusWriter.write`, up to the file that it writes as JSON
  unfoldable pub write :
      SchedulerState
      → Option SchedulerOwner
      → Option ℕ
      → Option ℕ
      → Option String
      → Option ℤ
      → Option SchedulerStatusError
      → SchedulerStatus
  write state owner started_at last_tick_at config_path config_mtime error = record {
    state = state;
    pid = some o.getpid;
    started_at = format_dt started_at;
    last_tick_at = format_dt last_tick_at;
    config_path = config_path;
    config_mtime = config_mtime;
    owner = owner;
    error = error;
    version = status_version;
  }

  abbrev pub recent : Option ℕ → Bool
  recent none = false
  recent (some t) = leb o.now (t + o.stale_after_seconds * 1000000)

  abbrev pub fresh_at : Option String → Bool
  fresh_at none = false
  fresh_at (some t) = recent (o.fromisoformat t)

  unfoldable pub is_fresh : SchedulerStatus → Bool
  is_fresh s = fresh_at (timestamp s.last_tick_at s.started_at)

  unfoldable pub evaluated : Option SchedulerStatus → Reading
  unfolding evaluate is_fresh
  evaluated none = type_error
  evaluated (some s) = status (evaluate o.lock_held (is_fresh s) (some s))

  unfoldable pub read : Bool → Content → Reading
  unfolding evaluate from_dict checked_status evaluated unread
  read strict missing = status (evaluate o.lock_held false none)
  read strict (broken message) = unread strict message
  read strict no_object = unread strict "Scheduler status file does not contain an object"
  read strict (holding d) = evaluated (from_dict d)
