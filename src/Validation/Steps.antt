-- ===== src/Validation/Steps.antt =====
-- What the check of the workflow steps is for: the resources of every step are found.
use dockkeep.Prelude.{
  ◌≡◌, refl, sym, ap, ◌∙◌, subst, String, Bool, true, false, false≢true, not, ◌&&◌, Option, none,
  some, List, [], ◌∷◌, ◌==◌, if◌then◌else◌, is_empty, contains, split_on, All,
}
use dockkeep.Prelude.Dict.{Dict, lookup}
use dockkeep.Config.{BackupConfig, RcloneTaskConfig, WorkflowConfig, JobConfig}
use dockkeep.Resolver.Assemble.{RawJob, RawApp, resolve_backup, resolve_rclone, resolve_workflow}
use dockkeep.Resolver.Names.{JobMatches, map_option}
use dockkeep.Runner.Steps.{lock_task_of, backup_substeps}
use dockkeep.Runner.Run.{
  repository_of, endpoints_of, named_resources, step_resources, join_resources, workflow_resources,
}
use dockkeep.Validation.Rules.{
  ConfigError, unknown_rclone, unknown_backup, Check, is_set, check_all, validate_step,
  validate_steps, validate_workflow_steps,
}
use dockkeep.Validation.Keep.{both_none, checked}

-- A step that names a task: the form that the model of a workflow asks for (`_STEP_RE`).
abbrev pub NamesTask : String → Type 0
NamesTask step = (name : String) × (lock_task_of (split_on "." step) ≡ some name)

picked :
    (a b : Bool) (x name : String)
    → ◌≡◌ {A = Option String} (if a then some x else if b then some x else none) (some name)
    → x ≡ name
picked true b x name e = cc e
picked false true x name e = cc e
picked false false x name e = absurd (cc e)

picked_sub :
    (a b : Bool) (x name : String)
    → ◌≡◌ {A = Option String} (if a then (if b then none else some x) else none) (some name)
    → x ≡ name
picked_sub true true x name e = absurd (cc e)
picked_sub true false x name e = cc e
picked_sub false b x name e = absurd (cc e)

there {ℓ κ} :
    {A : Type ℓ} {B : Type κ} (f : A → B) (x : Option A) (y : Option B)
    → y ≡ map_option f x
    → is_set x ≡ true
    → is_set y ≡ true
there f none y e h = absurd (false≢true h)
there f (some a) y e h = ap is_set e

passed : (b : Bool) (e : ConfigError) → ◌≡◌ {A = Check} (if b then none else some e) none → b ≡ true
passed true e h = refl
passed false e h = absurd (cc h)

by_kind :
    (b : Bool) (x y : Check) (u v : Option (List String))
    → (x ≡ none → is_set u ≡ true)
    → (y ≡ none → is_set v ≡ true)
    → (if b then x else y) ≡ none
    → is_set (if b then u else v) ≡ true
by_kind true x y u v hx hy c = hx c
by_kind false x y u v hx hy c = hy c

joined :
    (x y : Option (List String))
    → is_set x ≡ true
    → is_set y ≡ true
    → is_set (join_resources x y) ≡ true
joined none y h k = absurd (false≢true h)
joined (some xs) none h k = absurd (false≢true k)
joined (some xs) (some ys) h k = refl

endpoints_there :
    (resolve : String → String) (x : Option RcloneTaskConfig)
    → is_set x ≡ true
    → is_set (endpoints_of resolve x) ≡ true
endpoints_there resolve none h = absurd (false≢true h)
endpoints_there resolve (some t) h = refl

repository_there :
    (resolve : String → String) (x : Option BackupConfig)
    → is_set x ≡ true
    → is_set (repository_of resolve x) ≡ true
repository_there resolve none h = absurd (false≢true h)
repository_there resolve (some b) h = refl

taken {ℓ κ} :
    {A : Type ℓ} {B : Type κ} (f : A → B) (x : Option A) (b : B)
    → map_option f x ≡ some b
    → (a : A) × ((x ≡ some a) × (f a ≡ b))
taken f none b e = absurd (cc e)
taken f (some a) b e = (a, (refl, cc e))

module _ (environ : Dict String) (g : RawApp) (j : RawJob) (r : JobConfig)
    (m : JobMatches environ g j r) (resolve : String → String)
    (job_name workflow_name : String) where
  kind_found :
      (step kind name : String)
      → (if kind == "rclone"
          then (if is_set (lookup name j.rclones)
              then none
              else some (unknown_rclone job_name workflow_name step))
          else (if is_set (lookup name j.backups)
              then none
              else some (unknown_backup job_name workflow_name step)))
        ≡ none
      → is_set (named_resources r resolve kind (some name)) ≡ true
  kind_found step kind name c =
      by_kind (kind == "rclone") _ _ (endpoints_of resolve (lookup name r.rclone))
        (repository_of resolve (lookup name r.backup))
        (λ h. endpoints_there resolve (lookup name r.rclone) (
          there (resolve_rclone g j) (lookup name j.rclones) (lookup name r.rclone) (m.rclones name)
            (passed (is_set (lookup name j.rclones)) (unknown_rclone job_name workflow_name step)
              h)))
        (λ h. repository_there resolve (lookup name r.backup) (
          there (resolve_backup environ g j) (lookup name j.backups) (lookup name r.backup)
            (m.backups name)
            (passed (is_set (lookup name j.backups)) (unknown_backup job_name workflow_name step)
              h)))
        c

  named_found :
      (step kind n name : String) (task : Option String)
      → task ≡ some name
      → n ≡ name
      → is_set (named_resources r resolve kind (some n)) ≡ true
      → is_set (named_resources r resolve kind task) ≡ true
  named_found step kind n name task q e h =
      subst (λ t. is_set (named_resources r resolve kind t) ≡ true) (ap some e ∙ sym q) h

  parts_found :
      (step : String) (parts : List String) (name : String)
      → lock_task_of parts ≡ some name
      → validate_step j job_name workflow_name step parts ≡ none
      → is_set (step_resources r resolve parts) ≡ true
  unfolding lock_task_of validate_step step_resources
  parts_found step [] name q c = absurd (cc q)
  parts_found step (kind ∷ []) name q c = absurd (cc q)
  parts_found step (kind ∷ n ∷ []) name q c =
      named_found step kind n name (lock_task_of (kind ∷ n ∷ [])) q
        (picked (kind == "rclone" && not (is_empty n)) (kind == "backup" && not (is_empty n)) n name
          q)
        (kind_found step kind n c)
  parts_found step (kind ∷ n ∷ sub ∷ []) name q c =
      named_found step kind n name (lock_task_of (kind ∷ n ∷ sub ∷ [])) q
        (picked_sub (kind == "backup" && not (is_empty n)) (not (contains backup_substeps sub)) n
          name q)
        (kind_found step kind n c)
  parts_found step (kind ∷ n ∷ sub ∷ more ∷ rest) name q c = absurd (cc q)

  steps_found :
      (steps : List String)
      → All NamesTask steps
      → check_all (λ step. validate_step j job_name workflow_name step (split_on "." step)) steps
        ≡ none
      → is_set (workflow_resources r resolve steps) ≡ true
  unfolding workflow_resources check_all
  steps_found [] f c = refl
  steps_found (step ∷ steps) f c =
      let both = both_none (validate_step j job_name workflow_name step (split_on "." step)) _ c in
      joined (step_resources r resolve (split_on "." step)) (workflow_resources r resolve steps)
        (parts_found step (split_on "." step) f.0.0 f.0.1 both.0) (steps_found steps f.1 both.1)

-- The resources of a workflow of a job that was checked and resolved are found for all its steps, if
-- the steps have the form that the raw model asks for.
pub workflow_resources-validated :
    (environ : Dict String) (g : RawApp) (j : RawJob) (r : JobConfig) (resolve : String → String)
    (job_name name : String) (w : WorkflowConfig)
    → JobMatches environ g j r
    → validate_workflow_steps j job_name j.workflows ≡ none
    → lookup name r.workflows ≡ some w
    → All NamesTask w.steps
    → is_set (workflow_resources r resolve w.steps) ≡ true
unfolding validate_workflow_steps validate_steps resolve_workflow
workflow_resources-validated environ g j r resolve job_name name w m v l f =
    let t = taken (resolve_workflow g j) (lookup name j.workflows) w (sym (m.workflows name) ∙ l) in
    let c = checked (validate_steps j job_name) j.workflows name t.0 v t.1.0 in
    let same = ap (λ x. x.steps) t.1.1 in
    subst (λ steps. is_set (workflow_resources r resolve steps) ≡ true) same
      (steps_found environ g j r m resolve job_name c.0 t.0.steps
        (subst (All NamesTask) (sym same) f) c.1)
