-- ===== src/Runner/Steps.antt =====
-- `_step_to_lock_task` of core/job_runner.py: which task a step names.
use dockkeep.Prelude.{
  String, not, ◌&&◌, Option, none, some, List, [], ◌∷◌, ◌==◌, contains, is_empty, split_on,
  if◌then◌else◌,
}

unfoldable pub backup_substeps : List String
backup_substeps = "backup" ∷ "retention" ∷ "cleanup" ∷ []

-- The tests on the parts; `none` is its ValueError.
unfoldable pub lock_task_of : List String → Option String
lock_task_of (kind ∷ name ∷ []) =
    if kind == "rclone" && not (is_empty name)
    then some name
    else if kind == "backup" && not (is_empty name)
    then some name
    else none
lock_task_of (kind ∷ name ∷ sub ∷ []) =
    if kind == "backup" && not (is_empty name)
    then (if not (contains backup_substeps sub) then none else some name)
    else none
lock_task_of _ = none

unfoldable pub step_to_lock_task : String → Option String
unfolding lock_task_of
step_to_lock_task step = lock_task_of (split_on "." step)
