-- ===== src/Runner.antt =====
-- core/job_runner.py: a backup, a step or a workflow under the locks of its resources.
pub mod Steps
pub mod Run
pub mod Frame
pub mod Safety
pub mod DryRun
pub mod History
pub mod Errors
use dockkeep.Prelude.{
  ℕ, zero, suc, String, Bool, true, false, not, ◌&&◌, ◌||◌, Option, none, some, List, [], ◌∷◌, ◌++◌,
  ◌==◌, ◌<>◌, contains, is_empty, split_on, if◌then◌else◌,
}
use dockkeep.Prelude.Dict
use dockkeep.Prelude.Dict.{Dict}
use dockkeep.Config.{BackupConfig, RcloneTaskConfig, WorkflowConfig, JobConfig}
use dockkeep.Effects.{
  Outside, Exn, cancelled, job_running, value_error, failure, unexpected, Outcome, ok, raised,
  World, Json, StatsContext, Event, step_created, finish_called, stats_collected, completed, M,
  pure, raise, lift, look, attempt, ◌>>=◌, ◌>>◌, emit,
}
use dockkeep.Engine.{StepCallbacks, append_at, consume_artifact}
use dockkeep.Runner.Steps.{backup_substeps}

-- The arguments of `JobRunner.__init__`; a callback or a history that is None is `false` here.
pub record Settings : Type 0 where
  pub job_name : String
  pub job : JobConfig
  pub dry_run : Bool
  pub lock_dir : String
  pub retry_count : Option ℕ
  pub retry_delay : Option ℕ
  pub run_id : Option String
  pub has_history : Bool
  pub has_on_success : Bool
  pub has_on_complete : Bool
  -- the hexadecimal SHA-256 of a text
  pub digest : String → String

-- `self._lock_retry_count = lock_retry_count or 0`
abbrev pub or_zero : Option ℕ → ℕ
or_zero none = 0
or_zero (some n) = n

-- `_last_successful_step_ids`, by backup and substep.
abbrev pub by_substep : Option (Dict (List String)) → Dict (List String)
by_substep none = []
by_substep (some d) = d

abbrev pub ids_of : Dict (Dict (List String)) → String → Dict (List String)
ids_of d name = by_substep (Dict.lookup name d)

unfoldable pub remember_step : String → String → String → M (Unit {0})
remember_step name sub id w = (
  ok tt,
  record w { step_ids = Dict.insert name (append_at sub id (ids_of w.step_ids name)) w.step_ids },
)

abbrev pub pop_first : String → String → Option (List String) → World → Option String × World
pop_first name sub none w = (none, w)
pop_first name sub (some []) w = (none, w)
pop_first name sub (some (id ∷ ids)) w = (
  some id,
  record w {
    step_ids = Dict.insert name (Dict.insert sub ids (ids_of w.step_ids name)) w.step_ids;
  },
)

-- `pending_ids.pop(0) if pending_ids else None`
unfoldable pub next_step_id : String → String → M (Option String)
next_step_id name sub w =
    let (id, w') = pop_first name sub (Dict.lookup sub (ids_of w.step_ids name)) w in (ok id, w')

-- `except Exception: log`
abbrev pub swallow : Outcome (Unit {0}) → M (Unit {0})
swallow (raised cancelled) = raise cancelled
swallow (raised _) = pure tt
swallow (ok _) = pure tt

module _ (o : Outside) (s : Settings) where
  -- `_create_run_step`
  unfoldable pub create_step : Option String → String → M (Option String)
  create_step none step = pure none
  create_step (some run_id) step =
      if s.has_history
      then (do
        reply ← look o (λ t. o.create_step t step)
        id ← lift reply
        emit (step_created (some id) step)
        pure (some id))
      else pure none

  unfoldable pub create_run_step : String → M (Option String)
  unfolding create_step
  create_run_step step = create_step s.run_id step

  abbrev pub status_of : Bool → Bool → String
  status_of success was_cancelled =
      if was_cancelled then "cancelled" else if success then "success" else "failed"

  abbrev pub remember_parts : String → List String → M (Unit {0})
  remember_parts id (kind ∷ name ∷ sub ∷ []) =
      if kind == "backup" && contains backup_substeps sub
      then remember_step name sub id
      else pure tt
  remember_parts id _ = pure tt

  unfoldable pub close_step : Option String → String → Bool → Option String → Bool → M (Unit {0})
  close_step none step success error was_cancelled = pure tt
  close_step (some id) step success error was_cancelled =
      if s.has_history
      then (do
        let status = status_of success was_cancelled
        emit (finish_called id status error)
        reply ← look o (λ t. o.finish_step t id status)
        lift reply
        if success then remember_parts id (split_on "." step) else pure tt)
      else pure tt

  -- `_finish_run_step`
  unfoldable pub finish_run_step :
      Option String → String → Bool → Option String → Bool → M (Unit {0})
  unfolding close_step remember_step
  finish_run_step id step success error was_cancelled =
      close_step id step success error was_cancelled

  unfoldable pub callbacks : StepCallbacks
  unfolding create_run_step finish_run_step
  callbacks = record { started = create_run_step; finished = finish_run_step }

  -- `_mark_operational_complete`
  unfoldable pub mark_operational_complete : M (Unit {0})
  mark_operational_complete =
      if s.has_on_complete
      then (do emit completed; reply ← look o (λ t. o.complete t); swallow reply)
      else pure tt

  -- `_collect_backup_success`
  unfoldable pub collect_backup_success : String → StatsContext → M (Unit {0})
  collect_backup_success name context = if s.dry_run || not s.has_on_success then pure tt else (do
    emit (stats_collected name context)
    reply ← look o (λ t. o.collect t name context)
    swallow reply)

  -- `_artifact_context_fields`
  abbrev pub flat : Option (Option (Dict Json)) → Option (Dict Json)
  flat none = none
  flat (some x) = x

  unfoldable pub artifact_fields : String → M (Option (Dict Json))
  artifact_fields name = do candidate ← consume_artifact name; pure (flat candidate)

  abbrev pub is_none {ℓ} : {A : Type ℓ} → Option A → Bool
  is_none none = true
  is_none (some _) = false

  abbrev pub summary_for : String → String → M (Option (Dict Json))
  summary_for name sub = if sub == "backup" then artifact_fields name else pure none

  -- `_collect_successful_backup_substep`
  unfoldable pub collect_substep : String → String → Bool → M (Unit {0})
  unfolding next_step_id artifact_fields collect_backup_success
  collect_substep name sub fallback =
      if contains backup_substeps sub
      then (do
        id ← next_step_id name sub
        summary ← summary_for name sub
        if is_none id && (not fallback && (not (sub == "backup") || is_none summary))
            then pure tt
            else collect_backup_success name (record {
              run_id = s.run_id;
              run_step_id = id;
              backup_summary = summary;
              trigger_kind = sub;
            }))
      else pure tt

  abbrev pub collect_enabled : String → Option BackupConfig → Bool → M (Unit {0})
  collect_enabled name none success = raise (failure name)
  collect_enabled name (some backup) success = do
    (if backup.execution.retention then collect_substep name "retention" success else pure tt)
    if backup.execution.cleanup then collect_substep name "cleanup" success else pure tt

  -- `_collect_backup_run_step_successes`; a backup that is missing is a KeyError
  unfoldable pub collect_run_successes : String → Bool → M (Unit {0})
  unfolding collect_substep
  collect_run_successes name success = do
    collect_substep name "backup" success
    collect_enabled name (Dict.lookup name s.job.backup) success

  abbrev pub known_backup : Option BackupConfig → M (Unit {0}) → M (Unit {0})
  known_backup none m = pure tt
  known_backup (some _) m = m

  -- One step of the loop of `_collect_workflow_step_successes`.
  unfoldable pub collect_workflow_step : List String → Bool → M (Unit {0})
  unfolding collect_run_successes
  collect_workflow_step (kind ∷ name ∷ []) success =
      if kind == "backup" && not (is_empty name)
      then known_backup (Dict.lookup name s.job.backup) (collect_run_successes name success)
      else pure tt
  collect_workflow_step (kind ∷ name ∷ sub ∷ []) success =
      if kind == "backup" && not (is_empty name)
      then known_backup (Dict.lookup name s.job.backup) (collect_substep name sub success)
      else pure tt
  collect_workflow_step _ success = pure tt

  unfoldable pub collect_workflow : List String → Bool → M (Unit {0})
  unfolding collect_workflow_step
  collect_workflow [] success = pure tt
  collect_workflow (step ∷ steps) success =
      collect_workflow_step (split_on "." step) success >> collect_workflow steps success

  -- `_collect_step_successes`
  unfoldable pub collect_step : List String → String → Bool → M (Unit {0})
  unfolding collect_run_successes
  collect_step (kind ∷ _ ∷ []) name success =
      if kind == "backup" then collect_run_successes name success else pure tt
  collect_step (kind ∷ _ ∷ sub ∷ []) name success =
      if kind == "backup" then collect_substep name sub success else pure tt
  collect_step _ name success = pure tt
