-- ===== src/Runner/Errors.antt =====
-- The exceptions that a run can raise (`_run_locked` of core/job_runner.py).
use dockkeep.Prelude.{
  String, ◌≡◌, refl, split_on, Bool, true, false, Option, none, some, List, Bool-cases, inl, inr,
  if◌then◌else◌,
}
use dockkeep.Prelude.Dict
use dockkeep.Config.{WorkflowConfig}
use dockkeep.Effects.{
  Outside, Exn, cancelled, job_running, value_error, failure, unexpected, Outcome, ok, raised,
  World, M, pure, raise, look, attempt, continue, emit, ◌>>=◌,
}
use dockkeep.Locking.{lock_paths}
use dockkeep.Runner.{Settings, mark_operational_complete, swallow}
use dockkeep.Runner.Run
use dockkeep.Runner.Run.{fail_locked, settle_body, after_entry, run_locked, run_known, run_found}

-- A result, a cancellation, a lock that is taken, or an unexpected error.
abbrev IsRunOutcome : Outcome Bool → Type 0
IsRunOutcome (ok b) = Unit
IsRunOutcome (raised cancelled) = Unit
IsRunOutcome (raised (job_running path)) = Unit
IsRunOutcome (raised (unexpected e)) = Unit
IsRunOutcome (raised (value_error e)) = ⊥
IsRunOutcome (raised (failure e)) = ⊥

-- The same, or the exception of the paths of the resources, if there is one.
abbrev pub Ends : Option String → Outcome Bool → Type 0
Ends error (raised (failure e)) = error ≡ some e
Ends error (raised (value_error e)) = ⊥
Ends error _ = Unit

abbrev IsQuiet : Outcome (Unit {0}) → Type 0
IsQuiet (ok u) = Unit
IsQuiet (raised cancelled) = Unit
IsQuiet (raised _) = ⊥

swallow-IsQuiet : (r : Outcome (Unit {0})) (w : World) → IsQuiet (swallow r w).0
unfolding raise pure
swallow-IsQuiet (ok u) w = tt
swallow-IsQuiet (raised cancelled) w = tt
swallow-IsQuiet (raised _) w = tt

module _ (o : Outside) (s : Settings) where
  completion-IsQuiet :
      (started : Bool) (w : World)
      → IsQuiet ((if started then mark_operational_complete o s else pure tt) w).0
  unfolding mark_operational_complete pure emit look ◌>>=◌
  completion-IsQuiet false w = tt
  completion-IsQuiet true w = elim (Bool-cases s.has_on_complete) [
    | inl e ↦ rw e (swallow-IsQuiet _ _)
    | inr e ↦ rw e tt
  ]

  unexpected-IsRunOutcome :
      (text : String) (r : Outcome (Unit {0})) (w : World)
      → IsQuiet r
      → IsRunOutcome (continue (λ _. raise {A = Bool} (unexpected text)) r w).0
  unfolding raise
  unexpected-IsRunOutcome text (ok u) w q = tt
  unexpected-IsRunOutcome text (raised cancelled) w q = tt
  unexpected-IsRunOutcome text (raised (job_running p)) w q = absurd q
  unexpected-IsRunOutcome text (raised (value_error p)) w q = absurd q
  unexpected-IsRunOutcome text (raised (failure p)) w q = absurd q
  unexpected-IsRunOutcome text (raised (unexpected p)) w q = absurd q

  fail_locked-IsRunOutcome :
      (started : Bool) (e : Exn) (w : World) → IsRunOutcome (fail_locked o s started e w).0
  unfolding fail_locked raise ◌>>=◌ attempt
  fail_locked-IsRunOutcome started (job_running p) w = tt
  fail_locked-IsRunOutcome started cancelled w = tt
  fail_locked-IsRunOutcome started (value_error x) w =
      unexpected-IsRunOutcome _ _ _ (completion-IsQuiet started w)
  fail_locked-IsRunOutcome started (failure x) w =
      unexpected-IsRunOutcome _ _ _ (completion-IsQuiet started w)
  fail_locked-IsRunOutcome started (unexpected x) w =
      unexpected-IsRunOutcome _ _ _ (completion-IsQuiet started w)

  settle_body-IsRunOutcome : (r : Outcome Bool) (w : World) → IsRunOutcome (settle_body o s r w).0
  unfolding pure
  settle_body-IsRunOutcome (ok b) w = tt
  settle_body-IsRunOutcome (raised e) w = fail_locked-IsRunOutcome true e w

  after_entry-IsRunOutcome :
      (paths : List String) (operation : M Bool) (collect : Bool → M (Unit {0}))
      (r : Outcome (Unit {0})) (w : World)
      → IsRunOutcome (after_entry o s paths operation collect r w).0
  unfolding attempt
  after_entry-IsRunOutcome paths operation collect (raised e) w = fail_locked-IsRunOutcome false e w
  after_entry-IsRunOutcome paths operation collect (ok u) w = settle_body-IsRunOutcome _ _

  run_known-IsRunOutcome :
      (resources : Option (List String)) (operation : M Bool) (collect : Bool → M (Unit {0}))
      (w : World)
      → IsRunOutcome (run_known o s resources operation collect w).0
  unfolding run_locked attempt pure
  run_known-IsRunOutcome none operation collect w = tt
  run_known-IsRunOutcome (some resources) operation collect w =
      let paths = lock_paths s.digest s.lock_dir resources in
      let (r, v) = Run.enter_locks o s paths w in
      after_entry-IsRunOutcome paths operation collect r v

  allowed : (error : Option String) (r : Outcome Bool) → IsRunOutcome r → Ends error r
  allowed error (ok b) h = tt
  allowed error (raised cancelled) h = tt
  allowed error (raised (job_running p)) h = tt
  allowed error (raised (unexpected x)) h = tt
  allowed error (raised (value_error x)) h = h
  allowed error (raised (failure x)) h = absurd h

  ran-Ends :
      (error : Option String) (resources : Option (List String)) (operation : M Bool)
      (collect : Bool → M (Unit {0})) (w : World)
      → Ends error (Run.resolved error (run_known o s resources operation collect) w).0
  unfolding raise
  ran-Ends none resources operation collect w =
      allowed none (run_known o s resources operation collect w).0
        (run_known-IsRunOutcome resources operation collect w)
  ran-Ends (some e) resources operation collect w = refl

  -- The exception of the paths of a workflow's resources.
  abbrev pub found_error : Option WorkflowConfig → World → Option String
  found_error none w = none
  found_error (some workflow) w = Run.workflow_error s.job (o.resolve_error w.trace) workflow.steps

  found-Ends :
      (found : Option WorkflowConfig) (w : World)
      → Ends (found_error found w) (run_found o s found w).0
  unfolding look ◌>>=◌ pure
  found-Ends none w = tt
  found-Ends (some workflow) w = ran-Ends _ _ _ _ w

  -- Whatever fails in a backup, a step, a workflow, a hook or a callback, a run returns a result, is
  -- cancelled, finds a lock taken, or raises an unexpected error. Only where the path of one of its
  -- resources cannot be resolved, the exception of this comes out instead.
  pub run-Ends :
      (name : String) (w : World)
      → Ends
          (Run.repository_error (o.resolve_error w.trace) (Dict.lookup name s.job.backup))
          (Run.run_backup o s name w).0
        × Ends
            (Run.step_error s.job (o.resolve_error w.trace) (split_on "." name))
            (Run.run_step o s name w).0
        × Ends (found_error (Dict.lookup name s.job.workflows) w) (Run.run_workflow o s name w).0
  unfolding Run.run_backup Run.run_step Run.run_workflow look ◌>>=◌
  run-Ends name w =
      (ran-Ends _ _ _ _ w, ran-Ends _ _ _ _ w, found-Ends (Dict.lookup name s.job.workflows) w)
