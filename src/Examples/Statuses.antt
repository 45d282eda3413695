-- ===== src/Examples/Statuses.antt =====
-- A scheduler of the web interface that wrote its status at its tick at the time 5, with times as texts
-- of strokes.
use Prim.Native.String.{String}
use dockkeep.Prelude.{
  ℕ, zero, suc, ◌≡◌, refl, ap, is_empty, true, false, Option, none, some, [], ◌∷◌,
}
use dockkeep.Prelude.Dict.{lookup}
use dockkeep.Scheduler.Health.{
  pos, scalar, nested, running, gui, holding, status, type_error, Surroundings, SchedulerStatus,
  checked_status, coerce_state, coerce_owner, from_dict, to_dict, evaluated, read,
}
use dockkeep.Scheduler.Shown.{Formats, Recent, Tells, written, read-write}

abbrev strokes : ℕ → String
strokes zero = "T"
strokes (suc n) = String.◌∷◌ "i" (strokes n)

abbrev after_stroke : String → Option ℕ → Option ℕ
after_stroke String.[] rest = some 0
after_stroke (String.◌∷◌ c s) none = none
after_stroke (String.◌∷◌ c s) (some n) = some (suc n)

abbrev count_strokes : String → Option ℕ
count_strokes String.[] = none
count_strokes (String.◌∷◌ c s) = after_stroke s (count_strokes s)

abbrev around : Surroundings
around = record {
  str = λ v. "";
  fromisoformat = count_strokes;
  isoformat = strokes;
  getpid = pos 7;
  now = 9;
  lock_held = true;
  stale_after_seconds = 130;
}

count-strokes : (t : ℕ) → count_strokes (strokes t) ≡ some t
count-strokes zero = refl
count-strokes (suc zero) = refl
count-strokes (suc (suc t)) = ap (after_stroke (strokes (suc t))) (count-strokes (suc t))

full_strokes : (t : ℕ) → is_empty (strokes t) ≡ false
full_strokes zero = refl
full_strokes (suc t) = refl

around-Formats : Formats around
around-Formats = record { again = count-strokes; full = full_strokes }

abbrev ticked : SchedulerStatus
ticked =
    written around around-Formats false running (some gui) (some 3) (some 5) (some "/config.yml")
      none none

read-write_example :
    (r : SchedulerStatus) × ((read around false (holding (to_dict ticked)) ≡ status r)
      × Tells true (Recent around (some 3) (some 5)) ticked r)
read-write_example =
    read-write around around-Formats false running (some gui) (some 3) (some 5) (some "/config.yml")
      none none

-- A state that is a list raises an exception, without `strict` too.
list_as_state : read around false (holding (("state", scalar (nested "[]")) ∷ [])) ≡ type_error
unfolding read evaluated from_dict checked_status coerce_state coerce_owner lookup
list_as_state = refl
