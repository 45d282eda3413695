-- ===== src/Runner/Safety.antt =====
-- The locks of a run and its processes: what is held at the start of a process and at the end of a
-- run (`_run_locked` and the entry points of core/job_runner.py).
use dockkeep.Prelude.{
  String, ◌≡◌, refl, Bool, true, false, Option, none, some, List, [], ◌++◌, Bool-cases, inl, inr,
  split_on,
}
use dockkeep.Prelude.Dict
use dockkeep.Config.{WorkflowConfig}
use dockkeep.Effects.{
  Outside, Process, Trace, Outcome, ok, raised, World, M, pure, raise, look, attempt, finally,
  ◌>>=◌,
}
use dockkeep.Effects.Keeps.{Keeps}
use dockkeep.Effects.Frame.{Closed}
use dockkeep.Effects.Since.{Frame, Since-refl, Frame-Closed}
use dockkeep.Locking.{lock_paths, paths_inside, rev_onto, release_all}
use dockkeep.Locking.Held.{Taken, release_all-Frame, acquire_with_retry-Taken}
use dockkeep.Executors.Frame.{Admits}
use dockkeep.Engine.Frame.{Tracks, run_backup-Keeps, execute_step-Keeps, execute_workflow-Keeps}
use dockkeep.Runner.{Settings, or_zero, callbacks}
use dockkeep.Runner.Run
use dockkeep.Runner.Run.{
  enter_locks, locked_body, fail_locked, settle_body, after_entry, run_locked, resolved, run_known,
}
use dockkeep.Runner.Frame.{
  frame-Tracks, fail_locked-Keeps, locked_body-Keeps, collect_run_successes-Keeps,
  collect_step-Keeps, collect_workflow-Keeps,
}

module _ (o : Outside) (s : Settings) (R : Process → List String → Type 0) (t₀ : Trace) where
  enter_locks-Taken :
      (paths held : List String) (w : World)
      → Frame R t₀ held w
      → Taken R t₀ (rev_onto paths []) held (enter_locks o s paths w)
  unfolding enter_locks look ◌>>=◌
  enter_locks-Taken paths held w f =
      elim (Bool-cases (paths_inside (o.resolve w.trace) s.lock_dir paths)) [
        | inl e ↦
            rw e
              (acquire_with_retry-Taken R t₀ o (or_zero s.retry_count) s.retry_delay paths held w f)
        | inr e ↦ rw e f
      ]

  settled :
      (held : List String) (r : Outcome Bool) (w : World)
      → Frame R t₀ held w
      → Frame R t₀ held (settle_body o s r w).1
  unfolding pure
  settled held (ok success) w f = f
  settled held (raised e) w f = (fail_locked-Keeps o s (Frame-Closed o held) true e).at w f

  released :
      (taken held : List String) (body : M Bool) (w : World)
      → Frame R t₀ (taken ++ held) (body w).1
      → Frame R t₀ held (attempt (finally body (release_all taken)) (settle_body o s) w).1
  unfolding attempt finally
  released taken held body w f =
      let (done, g) = release_all-Frame R t₀ taken held (body w).1 f in
      rw done (settled held (body w).0 (release_all taken (body w).1).1 g)

  module _ (resources held : List String) (operation : M Bool) (collect : Bool → M (Unit {0}))
      (d : Admits
        (λ p. R p (rev_onto (lock_paths s.digest s.lock_dir resources) [] ++ held))
        s.dry_run)
      (ho : Keeps
        (Frame R t₀ (rev_onto (lock_paths s.digest s.lock_dir resources) [] ++ held))
        operation)
      (hc : (success : Bool)
        → Keeps
            (Frame R t₀ (rev_onto (lock_paths s.digest s.lock_dir resources) [] ++ held))
            (collect success)) where
    entered :
        (r : Outcome (Unit {0})) (w : World)
        → Taken R t₀ (rev_onto (lock_paths s.digest s.lock_dir resources) []) held (r, w)
        → Frame R t₀ held
            (after_entry o s (lock_paths s.digest s.lock_dir resources) operation collect r w).1
    entered (raised e) w f = (fail_locked-Keeps o s (Frame-Closed o held) false e).at w f
    entered (ok u) w f =
        released _ held _ w
          ((locked_body-Keeps o s (Frame-Closed o _) d operation collect ho hc).at w f)

    pub run_locked-Frame :
        (w : World)
        → Frame R t₀ held w
        → Frame R t₀ held (run_locked o s resources operation collect w).1
    unfolding run_locked attempt
    run_locked-Frame w f =
        let paths = lock_paths s.digest s.lock_dir resources in
        entered (enter_locks o s paths w).0 (enter_locks o s paths w).1
          (enter_locks-Taken paths held w f)

-- The run was exclusive: each process was started while exactly the lock files of the resources
-- were held on top of those held before, and at the end those of before are held. A run whose
-- resources are not found does nothing.
abbrev pub Exclusive : Settings → Option (List String) → World → World → Type 0
Exclusive s none w w' = w' ≡ w
Exclusive s (some resources) w w' =
    Frame (λ p held. held ≡ rev_onto (lock_paths s.digest s.lock_dir resources) [] ++ w.held)
      w.trace w.held w'

module _ (o : Outside) (s : Settings) where
  start : (R : Process → List String → Type 0) (w : World) → Frame R w.trace w.held w
  start R w = record { holds = refl; since = Since-refl }

  Admits-all : (taken : List String) → Admits (λ p. taken ≡ taken) s.dry_run
  Admits-all taken = record { probe = λ p i. refl; built = λ p i. refl; hook = λ p i. refl }

  run_known-Exclusive :
      (resources : Option (List String)) (operation : M Bool) (collect : Bool → M (Unit {0}))
      (w : World)
      → ((A : Process → Type 0) (P : World → Type 0)
          → Closed o A P
          → Admits A s.dry_run
          → Tracks o A P (callbacks o s)
          → Keeps P operation)
      → ((A : Process → Type 0) (P : World → Type 0)
          → Closed o A P
          → (b : Bool) → Keeps P (collect b))
      → Exclusive s resources w (run_known o s resources operation collect w).1
  unfolding pure
  run_known-Exclusive none operation collect w ho hc = refl
  run_known-Exclusive (some resources) operation collect w ho hc =
      let taken = rev_onto (lock_paths s.digest s.lock_dir resources) [] ++ w.held in
      run_locked-Frame o s (λ p held. held ≡ taken) w.trace resources w.held operation collect
        (Admits-all taken)
        (ho _ _ (Frame-Closed o taken) (Admits-all taken) (frame-Tracks o s _ _ taken))
        (hc _ _ (Frame-Closed o taken)) w (start _ w)

  ran-Exclusive :
      (error : Option String) (resources : Option (List String)) (operation : M Bool)
      (collect : Bool → M (Unit {0})) (w : World)
      → ((A : Process → Type 0) (P : World → Type 0)
          → Closed o A P
          → Admits A s.dry_run
          → Tracks o A P (callbacks o s)
          → Keeps P operation)
      → ((A : Process → Type 0) (P : World → Type 0)
          → Closed o A P
          → (b : Bool) → Keeps P (collect b))
      → Exclusive s resources w (resolved error (run_known o s resources operation collect) w).1
  unfolding raise
  ran-Exclusive none resources operation collect w ho hc =
      run_known-Exclusive resources operation collect w ho hc
  ran-Exclusive (some e) none operation collect w ho hc = refl
  ran-Exclusive (some e) (some resources) operation collect w ho hc = start _ w

  -- A backup run is exclusive on its repository, whatever the processes, the lock files, the
  -- history and the callbacks answer.
  pub run_backup-Exclusive :
      (name : String) (w : World)
      → Exclusive s
          (Run.repository_of (Run.resolve_at o s w.trace) (Dict.lookup name s.job.backup))
          w
          (Run.run_backup o s name w).1
  unfolding Run.run_backup look ◌>>=◌
  run_backup-Exclusive name w =
      ran-Exclusive _ _ _ _ w (λ A P c d k. run_backup-Keeps o _ s.job s.dry_run c d k name)
        (λ A P c. collect_run_successes-Keeps o s c name)

  -- A step is exclusive on the resources of the task that it names.
  pub run_step-Exclusive :
      (step : String) (w : World)
      → Exclusive s
          (Run.step_resources s.job (Run.resolve_at o s w.trace) (split_on "." step))
          w
          (Run.run_step o s step w).1
  unfolding Run.run_step look ◌>>=◌
  run_step-Exclusive step w =
      ran-Exclusive _ _ _ _ w (λ A P c d k. execute_step-Keeps o _ s.job s.dry_run c d k step)
        (λ A P c. collect_step-Keeps o s c _ _)

  abbrev pub workflow_locks : Option WorkflowConfig → World → Option (List String)
  workflow_locks none w = none
  workflow_locks (some workflow) w =
      Run.workflow_resources s.job (Run.resolve_at o s w.trace) workflow.steps

  found-Exclusive :
      (found : Option WorkflowConfig) (w : World)
      → Exclusive s (workflow_locks found w) w (Run.run_found o s found w).1
  unfolding look ◌>>=◌
  found-Exclusive none w = unfold pure in refl
  found-Exclusive (some workflow) w =
      ran-Exclusive _ _ _ _ w
        (λ A P c d k. execute_workflow-Keeps o _ s.job s.dry_run c d k workflow)
        (λ A P c. collect_workflow-Keeps o s c workflow.steps)

  -- A workflow holds the resources of all its steps from its first process to its last.
  pub run_workflow-Exclusive :
      (name : String) (w : World)
      → Exclusive s
          (workflow_locks (Dict.lookup name s.job.workflows) w)
          w
          (Run.run_workflow o s name w).1
  unfolding Run.run_workflow
  run_workflow-Exclusive name w = found-Exclusive (Dict.lookup name s.job.workflows) w
