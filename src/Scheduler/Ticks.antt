-- ===== src/Scheduler/Ticks.antt =====
-- The ticks of the main loop, each of which looks back to the last one that was completed
-- (`_check_and_run` with `_last_check_time`).
use dockkeep.Prelude.{
  ℕ, ◌≤◌, ◌≡◌, ◌⊎◌, inl, inr, String, false, Option, some, List, [], ◌∷◌, ◌++◌, is_empty,
}
use dockkeep.Scheduler.State.{Outside, State}
use dockkeep.Scheduler.Due.{IsCron}
use dockkeep.Scheduler.Status.{reload_if_changed}
use dockkeep.Scheduler.Tasks.{Entry, entries}
use dockkeep.Scheduler.Tick.{tick}
use dockkeep.Scheduler.Starts.{entry_key, started_keys, TickStarts, tick-Starts}

abbrev pub In : {A : Type 0} → A → List A → Type 0
In x [] = ⊥
In x (y ∷ ys) = (x ≡ y) ⊎ In x ys

pub In-left : {A : Type 0} (x : A) (xs ys : List A) → In x xs → In x (xs ++ ys)
In-left x [] ys h = absurd h
In-left x (y ∷ xs) ys (inl e) = inl e
In-left x (y ∷ xs) ys (inr h) = inr (In-left x xs ys h)

abbrev check_time : State → Option ℕ
check_time s = s.last_check_time

-- At each tick the task is one of the configuration that the tick has loaded.
unfoldable pub Listed : Outside → Entry → List ℕ → State → Type 0
Listed o e [] s = Unit
Listed o e (now ∷ nows) s =
    In e (entries (reload_if_changed o s).config.jobs) × Listed o e nows (tick o now s)

module _ (o : Outside) (Due : String → ℕ → Type 0) (is : IsCron Due o.cron) (e : Entry)
    (schedule : String) (start d : ℕ) (own : e.schedule ≡ some schedule)
    (full : is_empty schedule ≡ false) (time : Due schedule d) (late : start ≤ d) where
  -- The time is behind the last check only if the task was started.
  record Covers (s : State) : Type 0 where
    begins : s.start_time ≡ some start
    covered : (l : ℕ) → s.last_check_time ≡ some l → d ≤ l → In (entry_key e) (started_keys s.trace)

  module _ (now : ℕ) (s : State) (listed : In e (entries (reload_if_changed o s).config.jobs))
      (c : Covers s) where
    abbrev before : State
    before = reload_if_changed o s

    abbrev starts : TickStarts o now s before (tick o now s)
    starts = tick-Starts o now s
