-- ===== src/Examples/Texts.antt =====
-- Resource names and selectors, one example for each theorem about them.
use dockkeep.Prelude.{
  String, ◌≡◌, refl, some, [], ◌∷◌, ◌<>◌, partition, split_on, eq_iff, false≢true, has_char,
  contains,
}
use dockkeep.Locking.{sorted_set, resource_for_repository, resource_for_rclone_endpoint}
use dockkeep.Locking.Order.{IsSorted, sorted_set_lem}
use dockkeep.Locking.Identity.{endpoint-eq-repository}
use dockkeep.Targets.{ParsedTaskSelector, parsed, parse_task_selector, backup_substeps}
use dockkeep.Targets.RoundTrip.{
  IsSelector, format_selector, parse-format_selector, parse_task_selector_sound,
}

sorted_set_lem_example :
    IsSorted (sorted_set ("repo:b" ∷ "repo:a" ∷ "repo:b" ∷ []))
    × ((a : String)
        → contains (sorted_set ("repo:b" ∷ "repo:a" ∷ "repo:b" ∷ [])) a
          ≡ contains ("repo:b" ∷ "repo:a" ∷ "repo:b" ∷ []) a)
sorted_set_lem_example = sorted_set_lem ("repo:b" ∷ "repo:a" ∷ "repo:b" ∷ [])

endpoint-eq-repository_example :
    resource_for_rclone_endpoint (λ p. p) ("cloud" <> (":" <> "a//b"))
    ≡ resource_for_repository (λ p. p) ("rclone:" <> ("cloud" <> (":" <> "a//b")))
unfolding has_char
endpoint-eq-repository_example =
    endpoint-eq-repository (λ p. p) "cloud" "a//b" refl refl refl
      (λ e. false≢true ((eq_iff "cloud" "rclone").1 e))

abbrev home : ParsedTaskSelector
home = record { job = "home"; kind = "backup_step"; name = "files"; substep = some "cleanup" }

home-IsSelector : IsSelector home
unfolding has_char contains backup_substeps
home-IsSelector = record {
  job_given = refl;
  job_plain = refl;
  name_given = refl;
  name_plain = refl;
  kind_known = (refl, refl);
}

parse-format_selector_example : parse_task_selector (format_selector home) ≡ parsed home
parse-format_selector_example = parse-format_selector home home-IsSelector

parsed_text : parse_task_selector "home.backup.files.cleanup" ≡ parsed home
unfolding parse_task_selector partition split_on contains backup_substeps
parsed_text = refl

parse_task_selector_sound_example :
    IsSelector home × ("home.backup.files.cleanup" ≡ format_selector home)
parse_task_selector_sound_example =
    parse_task_selector_sound "home.backup.files.cleanup" home parsed_text
