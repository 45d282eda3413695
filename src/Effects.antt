-- ===== src/Effects.antt =====
-- The effects of a run: the exceptions, the world that a run changes, and the answers of what lies
-- outside the program (processes, lock files, the file system, the run history and the callbacks).
-- Every answer may depend on all that has happened before, so a theorem about every `Outside` is a
-- theorem about every behaviour of the surroundings, failures and cancellations included.
pub mod Keeps
pub mod Frame
pub mod Since
pub mod Fails
use dockkeep.Prelude.{
  ℕ, zero, suc, String, Bool, true, false, Option, none, some, List, [], ◌∷◌, ◌==◌, if◌then◌else◌,
}
use dockkeep.Prelude.Dict.{Dict}

pub data Exn : Type 0 where
  -- asyncio.CancelledError, which is no `Exception`
  cancelled : Exn
  -- JobAlreadyRunningError with its lock_path
  job_running : String → Exn
  value_error : String → Exn
  -- any other `Exception`, by its text
  failure : String → Exn
  -- UnexpectedRunError with its error
  unexpected : String → Exn

pub data Outcome {ℓ} (A : Type ℓ) : Type ℓ where
  ok : A → Outcome A
  raised : Exn → Outcome A

pub record Process : Type 0 where
  pub argv : List String
  -- `none` takes over the environment of the program
  pub env : Option (Dict String)
  pub cwd : Option String
  pub timeout : Option ℕ

-- `signal n` is the return code -n.
pub data Ending : Type 0 where
  exit signal : ℕ → Ending
  timed_out interrupted not_found : Ending
  os_error crash : String → Ending

pub record ProcessRun : Type 0 where
  -- the lines of stdout, as LineLogBuffer emits them
  pub lines : List String
  pub ending : Ending

-- A JSON object, as far as the program looks into it.
pub data Json : Type 0 where
  text : String → Json
  other : Json

pub record Summary : Type 0 where
  pub snapshot_id : String
  pub raw : Dict Json

-- BackupRunStatsContext
pub record StatsContext : Type 0 where
  pub run_id : Option String
  pub run_step_id : Option String
  pub backup_summary : Option (Dict Json)
  pub trigger_kind : String

-- What a run does to its surroundings, in order.
pub data Event : Type 0 where
  -- a process is started, while these lock files are held
  started : Process → List String → Event
  locked unlocked : String → Event
  slept : ℕ → Event
  -- the history has created a step
  step_created : Option String → String → Event
  -- `finish_step` of the history is called, whatever becomes of the call
  finish_called : String → String → Option String → Event
  stats_collected : String → StatsContext → Event
  completed : Event

-- The latest event first.
abbrev pub Trace : Type 0
Trace = List Event

pub data LockReply : Type 0 where
  granted busy : LockReply
  lock_error : String → LockReply

-- `Path(source).is_dir()` and the first entry of `iterdir()`
pub data DirState : Type 0 where
  no_dir empty_dir has_entries unreadable : DirState

pub record PathFacts : Type 0 where
  pub exists : Bool
  pub is_dir : Bool
  pub is_file : Bool
  -- os.access with X_OK
  pub executable : Bool

pub record Outside : Type 0 where
  pub process : Trace → Process → ProcessRun
  pub lock : Trace → String → LockReply
  -- a cancellation arrives during asyncio.sleep
  pub wakes : Trace → Bool
  -- RunHistoryService.create_step and finish_step
  pub create_step : Trace → String → Outcome String
  pub finish_step : Trace → String → String → Outcome (Unit {0})
  -- the callbacks of JobRunner
  pub collect : Trace → String → StatsContext → Outcome (Unit {0})
  pub complete : Trace → Outcome (Unit {0})
  -- json.loads: `none` for what is no object
  pub json_object : String → Option (Dict Json)
  pub environ : Dict String
  -- the file system: os.path.expanduser, Path.resolve(strict=False) and what stands at a path
  pub expanduser : String → String
  pub resolve : Trace → String → String
  -- the RuntimeError of `expanduser` or of a loop of links, by its text
  pub resolve_error : Trace → String → Option String
  pub path_facts : Trace → String → PathFacts
  pub source_dir : Trace → String → DirState

-- What a run keeps: what happened, the lock files that it holds, the candidates of
-- `completed_backup_artifacts` by backup, and `_last_successful_step_ids` by substep.
pub record World : Type 0 where
  pub trace : Trace
  pub held : List String
  pub artifacts : Dict (List (Option (Dict Json)))
  pub step_ids : Dict (Dict (List String))

-- An action returns a value or raises, and what it did before a raise stays done.
abbrev pub M {ℓ} : Type ℓ → Type ℓ
M A = World → Outcome A × World

module _ {ℓ} {A : Type ℓ} where
  unfoldable pub pure : A → M A
  pure a w = (ok a, w)

  unfoldable pub raise : Exn → M A
  raise e w = (raised e, w)

  unfoldable pub lift : Outcome A → M A
  lift r w = (r, w)

-- `try: m` with whatever follows on its outcome.
unfoldable pub attempt {ℓ κ} : {A : Type ℓ} {B : Type κ} → M A → (Outcome A → M B) → M B
attempt m k w = let (r, w') = m w in k r w'

abbrev pub continue {ℓ κ} : {A : Type ℓ} {B : Type κ} → (A → M B) → Outcome A → M B
continue f (ok a) w = f a w
continue f (raised e) w = (raised e, w)

infixl 5 ◌>>=◌ ◌>>◌
unfoldable pub ◌>>=◌ {ℓ κ} : {A : Type ℓ} {B : Type κ} → M A → (A → M B) → M B
unfolding attempt pure raise lift
m >>= f = attempt m (continue f)

abbrev pub ◌>>◌ {ℓ κ} : {A : Type ℓ} {B : Type κ} → M A → M B → M B
m >> n = m >>= λ _. n

abbrev pub finish {ℓ} : {A : Type ℓ} → Outcome A → Outcome (Unit {0}) → Outcome A
finish r (ok _) = r
finish r (raised e) = raised e

-- `try: m finally: f`
unfoldable pub finally {ℓ} : {A : Type ℓ} → M A → M (Unit {0}) → M A
unfolding attempt lift
finally m f = attempt m λ r. attempt f λ s. lift (finish r s)

-- `if not await m: n` then return False, else go on.
abbrev pub unless : Bool → M Bool → M Bool → M Bool
unless true n k = k
unless false n k = n

abbrev pub record_event : Event → World → World
record_event e w = record w { trace = e ∷ w.trace }

unfoldable pub emit : Event → M (Unit {0})
emit e w = (ok tt, record_event e w)

module _ (o : Outside) where
  -- stream_command, run_command
  unfoldable pub start_process : Process → M ProcessRun
  start_process p w = (ok (o.process w.trace p), record_event (started p w.held) w)

  unfoldable pub look {ℓ} : {A : Type ℓ} → (Trace → A) → M A
  look f w = (ok (f w.trace), w)

  -- FileLock.acquire with timeout=0; `false` stands for filelock.Timeout
  abbrev pub answer_lock : LockReply → String → M Bool
  answer_lock granted path w =
      (ok true, record w { trace = locked path ∷ w.trace; held = path ∷ w.held })
  answer_lock busy path w = (ok false, w)
  answer_lock (lock_error e) path w = (raised (failure e), w)

  unfoldable pub acquire_file : String → M Bool
  acquire_file path w = answer_lock (o.lock w.trace path) path w

  unfoldable pub sleep : ℕ → M (Unit {0})
  sleep n w = (if o.wakes w.trace then raised cancelled else ok tt, record_event (slept n) w)

-- The last lock file taken is the first in the list; releasing one that is not held does nothing.
unfoldable pub remove_first : String → List String → List String
remove_first p [] = []
remove_first p (q ∷ qs) = if q == p then qs else q ∷ remove_first p qs

-- FileLock.release
unfoldable pub release_file : String → M (Unit {0})
unfolding remove_first
release_file path w =
    (ok tt, record w { trace = unlocked path ∷ w.trace; held = remove_first path w.held })
