-- ===== src/Runner/History.antt =====
-- The steps that a run creates in the run history, and the calls that finish them.
use dockkeep.Prelude.{String, ◌≡◌, true, Option, none, some, List, [], ◌∷◌, ◌==◌, if◌then◌else◌}
use dockkeep.Prelude.Dict
use dockkeep.Effects.{
  Outside, Process, Trace, started, locked, unlocked, slept, step_created, finish_called,
  stats_collected, completed, Outcome, ok, raised, World,
}
use dockkeep.Effects.Keeps.{Keeps}
use dockkeep.Engine
use dockkeep.Runner
use dockkeep.Runner.{Settings}
use dockkeep.Runner.Run

abbrev pop : String → Option (List String) → Option (List String)
pop id none = none
pop id (some []) = none
pop id (some (j ∷ js)) = if j == id then some js else none

abbrev push : Option String → Option (List String) → Option (List String)
push none ids = ids
push (some id) none = none
push (some id) (some ids) = some (id ∷ ids)

-- The steps that were created and for which `finish_step` was not called yet, the last one first;
-- `none` where it was called for another step than the last one of these.
unfoldable pub unfinished_steps : Trace → Option (List String)
unfinished_steps [] = some []
unfinished_steps (step_created id step ∷ t) = push id (unfinished_steps t)
unfinished_steps (finish_called id status error ∷ t) = pop id (unfinished_steps t)
unfinished_steps (started p held ∷ t) = unfinished_steps t
unfinished_steps (locked path ∷ t) = unfinished_steps t
unfinished_steps (unlocked path ∷ t) = unfinished_steps t
unfinished_steps (slept n ∷ t) = unfinished_steps t
unfinished_steps (stats_collected name context ∷ t) = unfinished_steps t
unfinished_steps (completed ∷ t) = unfinished_steps t

abbrev Opens : List String → World → Type 0
Opens ids w = unfinished_steps w.trace ≡ some ids

abbrev AnyProcess : Process → Type 0
AnyProcess p = Unit

module _ (o : Outside) (s : Settings) where
  abbrev with_step : Option String → List String → List String
  with_step none ids = ids
  with_step (some id) ids = id ∷ ids

  abbrev Recorded : Option String → Type 0
  Recorded none = Unit
  Recorded (some id) = s.has_history ≡ true

  abbrev Created : List String → Outcome (Option String) × World → Type 0
  Created ids (ok id, w) = Opens (with_step id ids) w × Recorded id
  Created ids (raised e, w) = Opens ids w
