-- ===== src/Validation/Keep.antt =====
-- What the rules about retention policies are for: the command of `restic forget` has a flag that says
-- what to keep, wherever the configuration itself asks for retention.
use dockkeep.Prelude.{
  ◌≡◌, refl, subst, inl, inr, String, Bool, true, false, false≢true, ◌||◌, Option, none, some, List,
  [], ◌∷◌, ◌==◌, if◌then◌else◌, split_on, contains, Bool-cases, eq_iff,
}
use dockkeep.Prelude.Dict.{Dict, lookup}
use dockkeep.Config.{BackupConfig, WorkflowConfig, JobConfig}
use dockkeep.Validation.Rules.{Check, then_check, check_each, check_all}

abbrev pub non_empty : List String → Bool
non_empty [] = false
non_empty (x ∷ xs) = true

pub both_none : (a b : Check) → then_check a b ≡ none → (a ≡ none) × (b ≡ none)
both_none none b e = (refl, e)
both_none (some x) b e = absurd (cc e)

found_check {ℓ} :
    {A : Type ℓ} (check : String → A → Check) (b : Bool) (name k : String) (v a : A) (x : Option A)
    → check name v ≡ none
    → (x ≡ some a → (n : String) × (check n a ≡ none))
    → (if b then some v else x) ≡ some a
    → (n : String) × (check n a ≡ none)
found_check check true name k v a x c rest e =
    (name, subst (λ z. elim z [ none ↦ Unit | some w ↦ check name w ≡ none ]) e c)
found_check check false name k v a x c rest e = rest e

pub checked {ℓ} :
    {A : Type ℓ} (check : String → A → Check) (d : Dict A) (k : String) (a : A)
    → check_each check d ≡ none
    → lookup k d ≡ some a
    → (n : String) × (check n a ≡ none)
unfolding check_each lookup
checked check [] k a c e = absurd (cc e)
checked check ((name, v) ∷ d) k a c e =
    let both = both_none (check name v) (check_each check d) c in
    found_check check (name == k) name k v a (lookup k d) both.0 (checked check d k a both.1) e

pub list_checked :
    (check : String → Check) (xs : List String) (x : String)
    → check_all check xs ≡ none
    → contains xs x ≡ true
    → check x ≡ none
unfolding check_all contains
list_checked check [] x c e = absurd (false≢true e)
list_checked check (y ∷ ys) x c e =
    let both = both_none (check y) (check_all check ys) c in
    elim (Bool-cases (y == x)) [
      | inl k ↦ subst (λ z. check z ≡ none) ((eq_iff y x).0 k) both.0
      | inr k ↦ list_checked check ys x both.1 (subst (λ b. (b || contains ys x) ≡ true) k e)
    ]

-- Where the configuration asks for the retention of a backup: after the backup itself, or in a step of
-- a workflow. A retention step that is started by hand is asked for by the user.
pub data AsksRetention (j : JobConfig) (name : String) (b : BackupConfig) : Type 0 where
  after_backup : b.execution.retention ≡ true → AsksRetention j name b
  in_step :
      (workflow step : String) (w : WorkflowConfig)
      → lookup workflow j.workflows ≡ some w
      → contains w.steps step ≡ true
      → split_on "." step ≡ "backup" ∷ name ∷ "retention" ∷ []
      → AsksRetention j name b
