-- ===== src/Runner/Frame.antt =====
-- The history callbacks and the collection of statistics keep every closed condition, and so does
-- what runs while the locks are held.
use dockkeep.Prelude.{
  String, Bool, not, ◌&&◌, ◌||◌, Option, none, some, List, [], ◌∷◌, ◌==◌, split_on, contains,
}
use dockkeep.Config.{BackupConfig}
use dockkeep.Effects.{
  Outside, Exn, cancelled, job_running, Outcome, ok, raised, Process, World, StatsContext, Trace, M,
  emit, step_created, finish_called,
}
use dockkeep.Effects.Keeps.{Keeps, Keeps-pure, Keeps-raise, Keeps-lift, Keeps-bind, Keeps-if}
use dockkeep.Effects.Frame.{Closed, Keeps-look}
use dockkeep.Effects.Since.{Frame, Since-cons, Frame-Closed}
use dockkeep.Executors.Frame.{Admits}
use dockkeep.Engine
use dockkeep.Engine.Frame.{Tracks, keep-Tracks, run_with_job_hooks-Keeps}
use dockkeep.Runner
use dockkeep.Runner.{Settings}
use dockkeep.Runner.Steps.{backup_substeps}
use dockkeep.Runner.Run.{locked_body, fail_locked}

pub record StepEvents (P : World → Type 0) : Type 0 where
  pub created : (id step : String) → Keeps P (emit (step_created (some id) step))
  pub closed :
      (id status : String) (error : Option String) → Keeps P (emit (finish_called id status error))

module _ (o : Outside) (s : Settings) {A : Process → Type 0} {P : World → Type 0}
    (c : Closed o A P) where
  remember_step-Keeps : (name sub id : String) → Keeps P (Runner.remember_step name sub id)
  unfolding Runner.remember_step
  remember_step-Keeps name sub id = record { at = λ w h. c.file_ids w _ h }

  pub remember_parts-Keeps :
      (id : String) (parts : List String) → Keeps P (Runner.remember_parts o s id parts)
  remember_parts-Keeps id [] = Keeps-pure tt
  remember_parts-Keeps id (_ ∷ []) = Keeps-pure tt
  remember_parts-Keeps id (_ ∷ _ ∷ []) = Keeps-pure tt
  remember_parts-Keeps id (kind ∷ name ∷ sub ∷ []) =
      Keeps-if (kind == "backup" && contains backup_substeps sub) _ _
        (remember_step-Keeps name sub id) (Keeps-pure tt)
  remember_parts-Keeps id (_ ∷ _ ∷ _ ∷ _ ∷ _) = Keeps-pure tt

  module _ (steps : StepEvents P) where
    create_step-Keeps :
        (run_id : Option String) (step : String) → Keeps P (Runner.create_step o s run_id step)
    unfolding Runner.create_step
    create_step-Keeps none step = Keeps-pure none
    create_step-Keeps (some run_id) step =
        Keeps-if s.has_history _ _
          (Keeps-bind _ _ (Keeps-look o _) (λ reply.
            Keeps-bind _ _ (Keeps-lift reply)
              (λ id. Keeps-bind _ _ (steps.created id step) (λ _. Keeps-pure _))))
          (Keeps-pure none)

    close_step-Keeps :
        (id : Option String) (step : String) (success : Bool) (error : Option String)
        (was_cancelled : Bool)
        → Keeps P (Runner.close_step o s id step success error was_cancelled)
    unfolding Runner.close_step
    close_step-Keeps none step success error was_cancelled = Keeps-pure tt
    close_step-Keeps (some id) step success error was_cancelled =
        Keeps-if s.has_history _ _
          (Keeps-bind _ _ (steps.closed id _ _) (λ _. Keeps-bind _ _ (Keeps-look o _) (λ reply.
            Keeps-bind _ _ (Keeps-lift reply) (λ _.
              Keeps-if success _ _ (remember_parts-Keeps id (split_on "." step)) (Keeps-pure tt)))))
          (Keeps-pure tt)

    pub callbacks-Tracks : Tracks o A P (Runner.callbacks o s)
    unfolding Runner.callbacks
    callbacks-Tracks =
        keep-Tracks o (Runner.callbacks o s) c
          (record { started = create_step-Keeps s.run_id; finished = close_step-Keeps })

  swallow-Keeps : (r : Outcome (Unit {0})) → Keeps P (Runner.swallow r)
  swallow-Keeps (ok _) = Keeps-pure tt
  swallow-Keeps (raised cancelled) = Keeps-raise _
  swallow-Keeps (raised _) = Keeps-pure tt

  pub mark_operational_complete-Keeps : Keeps P (Runner.mark_operational_complete o s)
  unfolding Runner.mark_operational_complete
  mark_operational_complete-Keeps =
      Keeps-if s.has_on_complete _ _
        (Keeps-bind _ _ (c.benign _ tt)
          (λ _. Keeps-bind _ _ (Keeps-look o _) (λ reply. swallow-Keeps reply)))
        (Keeps-pure tt)

  collect_backup_success-Keeps :
      (name : String) (context : StatsContext)
      → Keeps P (Runner.collect_backup_success o s name context)
  unfolding Runner.collect_backup_success
  collect_backup_success-Keeps name context =
      Keeps-if (s.dry_run || not s.has_on_success) _ _ (Keeps-pure tt) (
        Keeps-bind _ _ (c.benign _ tt)
          (λ _. Keeps-bind _ _ (Keeps-look o _) (λ reply. swallow-Keeps reply)))

  pop_first-keeps :
      (name sub : String) (ids : Option (List String)) (w : World)
      → P w
      → P (Runner.pop_first name sub ids w).1
  pop_first-keeps name sub none w h = h
  pop_first-keeps name sub (some []) w h = h
  pop_first-keeps name sub (some (x ∷ xs)) w h = c.file_ids w _ h

  next_step_id-Keeps : (name sub : String) → Keeps P (Runner.next_step_id name sub)
  unfolding Runner.next_step_id
  next_step_id-Keeps name sub = record { at = λ w h. pop_first-keeps name sub _ w h }

  take_first-keeps :
      (name : String) (found : Option _) (w : World) → P w → P (Engine.take_first name found w).1
  take_first-keeps name none w h = h
  take_first-keeps name (some []) w h = h
  take_first-keeps name (some (x ∷ xs)) w h = c.file_artifacts w _ h

  consume_artifact-Keeps : (name : String) → Keeps P (Engine.consume_artifact name)
  unfolding Engine.consume_artifact
  consume_artifact-Keeps name = record { at = λ w h. take_first-keeps name _ w h }

  summary_for-Keeps : (name sub : String) → Keeps P (Runner.summary_for o s name sub)
  unfolding Runner.artifact_fields
  summary_for-Keeps name sub =
      Keeps-if (sub == "backup") _ _
        (Keeps-bind _ _ (consume_artifact-Keeps name) (λ x. Keeps-pure _)) (Keeps-pure none)

  collect_substep-Keeps :
      (name sub : String) (fallback : Bool) → Keeps P (Runner.collect_substep o s name sub fallback)
  unfolding Runner.collect_substep
  collect_substep-Keeps name sub fallback =
      Keeps-if (contains backup_substeps sub) _ _
        (Keeps-bind _ _ (next_step_id-Keeps name sub) (λ id.
          Keeps-bind _ _ (summary_for-Keeps name sub)
            (λ summary. Keeps-if _ _ _ (Keeps-pure tt) (collect_backup_success-Keeps name _))))
        (Keeps-pure tt)

  collect_enabled-Keeps :
      (name : String) (b : Option BackupConfig) (success : Bool)
      → Keeps P (Runner.collect_enabled o s name b success)
  collect_enabled-Keeps name none success = Keeps-raise _
  collect_enabled-Keeps name (some backup) success =
      Keeps-bind _ _
        (Keeps-if backup.execution.retention _ _ (collect_substep-Keeps name _ success)
          (Keeps-pure tt))
        (λ _.
          Keeps-if backup.execution.cleanup _ _ (collect_substep-Keeps name _ success)
            (Keeps-pure tt))

  pub collect_run_successes-Keeps :
      (name : String) (success : Bool) → Keeps P (Runner.collect_run_successes o s name success)
  unfolding Runner.collect_run_successes
  collect_run_successes-Keeps name success =
      Keeps-bind _ _ (collect_substep-Keeps name "backup" success)
        (λ _. collect_enabled-Keeps name _ success)

  pub collect_step-Keeps :
      (parts : List String) (name : String) (success : Bool)
      → Keeps P (Runner.collect_step o s parts name success)
  unfolding Runner.collect_step
  collect_step-Keeps [] name success = Keeps-pure tt
  collect_step-Keeps (_ ∷ []) name success = Keeps-pure tt
  collect_step-Keeps (kind ∷ _ ∷ []) name success =
      Keeps-if (kind == "backup") _ _ (collect_run_successes-Keeps name success) (Keeps-pure tt)
  collect_step-Keeps (kind ∷ _ ∷ sub ∷ []) name success =
      Keeps-if (kind == "backup") _ _ (collect_substep-Keeps name sub success) (Keeps-pure tt)
  collect_step-Keeps (_ ∷ _ ∷ _ ∷ _ ∷ _) name success = Keeps-pure tt

  known_backup-Keeps :
      (b : Option BackupConfig) (m : M (Unit {0}))
      → Keeps P m
      → Keeps P (Runner.known_backup o s b m)
  known_backup-Keeps none m h = Keeps-pure tt
  known_backup-Keeps (some _) m h = h

  collect_workflow_step-Keeps :
      (parts : List String) (success : Bool)
      → Keeps P (Runner.collect_workflow_step o s parts success)
  unfolding Runner.collect_workflow_step
  collect_workflow_step-Keeps [] success = Keeps-pure tt
  collect_workflow_step-Keeps (_ ∷ []) success = Keeps-pure tt
  collect_workflow_step-Keeps (kind ∷ name ∷ []) success =
      Keeps-if _ _ _ (known_backup-Keeps _ _ (collect_run_successes-Keeps name success))
        (Keeps-pure tt)
  collect_workflow_step-Keeps (kind ∷ name ∷ sub ∷ []) success =
      Keeps-if _ _ _ (known_backup-Keeps _ _ (collect_substep-Keeps name sub success))
        (Keeps-pure tt)
  collect_workflow_step-Keeps (_ ∷ _ ∷ _ ∷ _ ∷ _) success = Keeps-pure tt

  pub collect_workflow-Keeps :
      (steps : List String) (success : Bool) → Keeps P (Runner.collect_workflow o s steps success)
  unfolding Runner.collect_workflow
  collect_workflow-Keeps [] success = Keeps-pure tt
  collect_workflow-Keeps (step ∷ steps) success =
      Keeps-bind _ _ (collect_workflow_step-Keeps (split_on "." step) success)
        (λ _. collect_workflow-Keeps steps success)

  pub fail_locked-Keeps : (started : Bool) (e : Exn) → Keeps P (fail_locked o s started e)
  unfolding fail_locked
  fail_locked-Keeps started cancelled = Keeps-raise _
  fail_locked-Keeps started (job_running path) = Keeps-raise _
  fail_locked-Keeps started _ =
      Keeps-bind _ _ (Keeps-if started _ _ mark_operational_complete-Keeps (Keeps-pure tt))
        (λ _. Keeps-raise _)

  pub locked_body-Keeps :
      Admits A s.dry_run
      → (operation : M Bool) (collect : Bool → M (Unit {0})) → Keeps P operation
      → ((success : Bool) → Keeps P (collect success))
      → Keeps P (locked_body o s operation collect)
  unfolding locked_body
  locked_body-Keeps d operation collect ho hc =
      Keeps-bind _ _ (run_with_job_hooks-Keeps o _ s.job s.dry_run c d operation ho) (λ success.
        Keeps-bind _ _ mark_operational_complete-Keeps
          (λ _. Keeps-bind _ _ (hc success) (λ _. Keeps-pure success)))

-- A frame admits the events of steps as well.
pub frame-Tracks :
    (o : Outside) (s : Settings) (R : Process → List String → Type 0) (t₀ : Trace)
    (held : List String)
    → Tracks o (λ p. R p held) (Frame R t₀ held) (Runner.callbacks o s)
unfolding emit
frame-Tracks o s R t₀ held = callbacks-Tracks o s (Frame-Closed o held) (record {
  created =
      λ id step. record { at = λ w f. record { holds = f.holds; since = Since-cons _ tt f.since } };
  closed = λ id status error. record {
    at = λ w f. record { holds = f.holds; since = Since-cons _ tt f.since };
  };
})
