-- ===== src/Targets.antt =====
-- utils/targets.py: selectors `<job>.<kind>.<name>[.<substep>]` of manual runs.
pub mod RoundTrip
use dockkeep.Prelude.{
  String, Bool, true, false, ◌&&◌, ◌||◌, not, Option, none, some, List, [], ◌∷◌, ◌==◌, is_empty,
  split_on, partition, contains, if◌then◌else◌,
}

pub record ParsedTaskSelector : Type 0 where
  pub job : String
  pub kind : String
  pub name : String
  pub substep : Option String

-- The messages of `ValueError`, one constructor for each `raise`.
pub data SelectorError : Type 0 where
  bad_format no_kind bad_backup bad_rclone bad_workflow bad_task : SelectorError

pub data Parsed : Type 0 where
  parsed : ParsedTaskSelector → Parsed
  refused : SelectorError → Parsed

unfoldable pub backup_substeps : List String
backup_substeps = "backup" ∷ "retention" ∷ "cleanup" ∷ []

abbrev split_at_dot : Option (String × String) → Option (String × String)
split_at_dot none = none
split_at_dot (some (job, rest)) = if is_empty job || is_empty rest then none else some (job, rest)

-- `dot_pos <= 0 or dot_pos == len - 1`: no dot, nothing before the first dot or nothing behind it.
unfoldable pub split_task_selector : String → Option (String × String)
split_task_selector s = split_at_dot (partition "." s)

abbrev selected : String → String → String → Parsed
selected job kind name = parsed (record { job = job; kind = kind; name = name; substep = none })

unfoldable pub parse_backup : String → List String → Parsed
parse_backup job (_ ∷ name ∷ []) =
    if not (is_empty name) then selected job "backup" name else refused bad_backup
parse_backup job (_ ∷ name ∷ sub ∷ []) =
    if not (is_empty name) && contains backup_substeps sub
    then parsed (record { job = job; kind = "backup_step"; name = name; substep = some sub })
    else refused bad_backup
parse_backup job _ = refused bad_backup

unfoldable pub parse_named : String → String → SelectorError → List String → Parsed
parse_named job kind e (_ ∷ name ∷ []) =
    if not (is_empty name) then selected job kind name else refused e
parse_named job kind e _ = refused e

unfoldable pub parse_kind : String → String → List String → Parsed
unfolding parse_backup parse_named
parse_kind job head parts =
    if is_empty head
    then refused no_kind
    else if head == "backup"
    then parse_backup job parts
    else if head == "rclone"
    then parse_named job "rclone" bad_rclone parts
    else if head == "workflow"
    then parse_named job "workflow" bad_workflow parts
    else refused bad_task

abbrev parse_parts : String → List String → Parsed
parse_parts job [] = refused no_kind
parse_parts job (head ∷ rest) = parse_kind job head (head ∷ rest)

abbrev parse_split : Option (String × String) → Parsed
parse_split none = refused bad_format
parse_split (some (job, step_name)) = parse_parts job (split_on "." step_name)

unfoldable pub parse_task_selector : String → Parsed
unfolding split_task_selector parse_kind
parse_task_selector s = parse_split (split_task_selector s)
