-- ===== src/Resolver/Names.antt =====
-- Which tasks the resolved configuration has.
use dockkeep.Prelude.{
  String, if-holds, ◌≡◌, refl, ap, ◌∙◌, subst, Bool, true, false, Option, none, some, [], ◌∷◌, ◌==◌,
  if◌then◌else◌,
}
use dockkeep.Prelude.Dict.{Dict, lookup}
use dockkeep.Config.{BackupConfig, JobConfig, GlobalConfig, AppConfig}
use dockkeep.Resolver.Assemble.{
  RawApp, RawJob, RawBackup, map_values, cons_entry, cons_job, job_with, app_with, resolve_backup,
  resolve_workflow, resolve_rclone, resolve_backups, resolve_job, resolve_jobs, resolve_config,
}

-- What a name of the resolved configuration stands for: nothing, or what its raw task is resolved to.
abbrev pub map_option {ℓ κ} : {A : Type ℓ} {B : Type κ} → (A → B) → Option A → Option B
map_option f none = none
map_option f (some a) = some (f a)

entry {ℓ κ} :
    {A : Type ℓ} {B : Type κ} (f : A → B) (b : Bool) (v : A) (x : Option A)
    → (if b then some (f v) else map_option f x) ≡ map_option f (if b then some v else x)
entry f true v x = refl
entry f false v x = refl

lookup-map_values {ℓ κ} :
    {A : Type ℓ} {B : Type κ} (f : A → B) (k : String) (d : Dict A)
    → lookup k (map_values f d) ≡ map_option f (lookup k d)
unfolding lookup
lookup-map_values f k [] = refl
lookup-map_values f k ((j, v) ∷ d) =
    ap (λ x. if j == k then some (f v) else x) (lookup-map_values f k d)
    ∙ entry f (j == k) v (lookup k d)

job_dict :
    (jobs : Dict JobConfig) (c : GlobalConfig) (app : AppConfig)
    → app_with c (some jobs) ≡ some app
    → jobs ≡ app.jobs
job_dict jobs c app e = ap (λ x. elim x [ none ↦ jobs | some a ↦ a.jobs ]) e

module _ (environ : Dict String) (g : RawApp) where
  -- What a resolved dictionary has, if there is one.
  abbrev Has {ℓ κ} : {A : Type ℓ} {B : Type κ} → (A → B) → Dict A → Option (Dict B) → Type κ
  Has f raw none = Unit
  Has f raw (some d) = (k : String) → lookup k d ≡ map_option f (lookup k raw)

  cons-Has {ℓ κ} :
      {A : Type ℓ} {B : Type κ} (f : A → B) (name : String) (a : A) (raw : Dict A)
      (rest : Option (Dict B))
      → Has f raw rest
      → Has f ((name, a) ∷ raw) (cons_entry name (f a) rest)
  unfolding lookup
  cons-Has f name a raw none h = tt
  cons-Has f name a raw (some d) h = λ k.
      ap (λ x. if name == k then some (f a) else x) (h k) ∙ entry f (name == k) a (lookup k raw)

  resolve_backups-Has :
      (j : RawJob) (bs : Dict RawBackup)
      → Has (resolve_backup environ g j) bs (resolve_backups environ g j bs)
  unfolding resolve_backups lookup
  resolve_backups-Has j [] = λ k. refl
  resolve_backups-Has j ((name, b) ∷ bs) =
      if-holds (Has (resolve_backup environ g j) ((name, b) ∷ bs)) (b.backend == "restic") _ none
        (cons-Has (resolve_backup environ g j) name b bs (resolve_backups environ g j bs)
          (resolve_backups-Has j bs))
        tt

  -- The tasks of a resolved job are those of the raw job, each resolved by itself.
  pub record JobMatches (j : RawJob) (r : JobConfig) : Type 0 where
    pub backups :
        (k : String)
        → lookup k r.backup ≡ map_option (resolve_backup environ g j) (lookup k j.backups)
    pub rclones :
        (k : String) → lookup k r.rclone ≡ map_option (resolve_rclone g j) (lookup k j.rclones)
    pub workflows :
        (k : String)
        → lookup k r.workflows ≡ map_option (resolve_workflow g j) (lookup k j.workflows)

  abbrev pub Matches : Option RawJob → Option JobConfig → Type 0
  Matches none none = Unit
  Matches (some j) (some r) = JobMatches j r
  Matches none (some r) = ⊥
  Matches (some j) none = ⊥

  abbrev JobOf : RawJob → Option JobConfig → Type 0
  JobOf j none = Unit
  JobOf j (some r) = JobMatches j r

  job_with-Matches :
      (j : RawJob) (bs : Option (Dict BackupConfig))
      → Has (resolve_backup environ g j) j.backups bs
      → JobOf j (job_with g j bs)
  unfolding job_with
  job_with-Matches j none h = tt
  job_with-Matches j (some bs) h = record {
    backups = h;
    rclones = λ k. lookup-map_values (resolve_rclone g j) k j.rclones;
    workflows = λ k. lookup-map_values (resolve_workflow g j) k j.workflows;
  }

  abbrev JobsOf : Dict RawJob → Option (Dict JobConfig) → Type 0
  JobsOf raw none = Unit
  JobsOf raw (some jobs) = (k : String) → Matches (lookup k raw) (lookup k jobs)

  if-Matches :
      (b : Bool) (j : RawJob) (r : JobConfig) (x : Option RawJob) (y : Option JobConfig)
      → JobMatches j r
      → Matches x y
      → Matches (if b then some j else x) (if b then some r else y)
  if-Matches true j r x y m n = m
  if-Matches false j r x y m n = n

  cons_job-Matches :
      (name : String) (j : RawJob) (raw : Dict RawJob) (r : Option JobConfig)
      (rest : Option (Dict JobConfig))
      → JobOf j r
      → JobsOf raw rest
      → JobsOf ((name, j) ∷ raw) (cons_job name r rest)
  unfolding lookup
  cons_job-Matches name j raw none rest m h = tt
  cons_job-Matches name j raw (some r) none m h = tt
  cons_job-Matches name j raw (some r) (some jobs) m h =
      λ k. if-Matches (name == k) j r (lookup k raw) (lookup k jobs) m (h k)

  resolve_jobs-Matches : (raw : Dict RawJob) → JobsOf raw (resolve_jobs environ g raw)
  unfolding resolve_jobs resolve_job lookup
  resolve_jobs-Matches [] = λ k. tt
  resolve_jobs-Matches ((name, j) ∷ js) =
      cons_job-Matches name j js (resolve_job environ g j) (resolve_jobs environ g js)
        (job_with-Matches j (resolve_backups environ g j j.backups)
          (resolve_backups-Has j j.backups))
        (resolve_jobs-Matches js)

  given :
      (x : Option (Dict JobConfig)) (c : GlobalConfig) (app : AppConfig) (raw : Dict RawJob)
      → JobsOf raw x
      → app_with c x ≡ some app
      → (k : String) → Matches (lookup k raw) (lookup k app.jobs)
  given none c app raw h e k = absurd (cc e)
  given (some jobs) c app raw h e k =
      subst (λ js. Matches (lookup k raw) (lookup k js)) (job_dict jobs c app e) (h k)

  -- A configuration that is resolved has exactly the jobs of the raw one, and each job exactly its
  -- tasks, each resolved by itself: no task is lost, made up, or mixed with another one's values.
  pub resolve_config-Matches :
      (app : AppConfig)
      → resolve_config environ g ≡ some app
      → (job_name : String) → Matches (lookup job_name g.jobs) (lookup job_name app.jobs)
  unfolding resolve_config
  resolve_config-Matches app e job_name =
      given (resolve_jobs environ g g.jobs) _ app g.jobs (resolve_jobs-Matches g.jobs) e job_name
