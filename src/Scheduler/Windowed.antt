-- ===== src/Scheduler/Windowed.antt =====
-- A tick starts no task without a time of its schedule.
use dockkeep.Prelude.{
  ℕ, ◌≡◌, refl, String, Bool, true, false, false≢true, Option, none, some, List, [], ◌∷◌, ◌++◌,
  if◌then◌else◌, is_empty,
}
use dockkeep.Scheduler.State.{Outside, State}
use dockkeep.Scheduler.Due.{IsCron, InWindow, is_first, window_start}
use dockkeep.Scheduler.Status.{reload_if_changed}
use dockkeep.Scheduler.Reports.{not_before}
use dockkeep.Scheduler.Tasks.{Entry, entries, scheduled}
use dockkeep.Scheduler.Starts.{Key, entry_key}
use dockkeep.Scheduler.Ticks.{In}

tails : (k l : Key) (xs ys : List Key) → ◌≡◌ {A = List Key} (k ∷ xs) (l ∷ ys) → xs ≡ ys
tails k l xs ys e = cc e

cancel : (xs ys zs : List Key) → xs ++ ys ≡ xs ++ zs → ys ≡ zs
cancel [] ys zs e = e
cancel (x ∷ xs) ys zs e = cancel xs ys zs (tails x x (xs ++ ys) (xs ++ zs) e)

-- The task of a key that is due.
abbrev Source : (String → Bool) → List Entry → Key → Type 0
Source due es k = (e : Entry) × (In e es × ((entry_key e ≡ k) × (scheduled due e.schedule ≡ true)))

holds_then : (b c : Bool) → (if b then false else c) ≡ true → c ≡ true
holds_then true c h = absurd (false≢true h)
holds_then false c h = h

text_of :
    (due : String → Bool) (x : Option String)
    → scheduled due x ≡ true
    → (schedule : String) × ((x ≡ some schedule) × (due schedule ≡ true))
text_of due none h = absurd (false≢true h)
text_of due (some schedule) h = (schedule, (refl, holds_then (is_empty schedule) (due schedule) h))

module _ (o : Outside) (Due : String → ℕ → Type 0) (is : IsCron Due o.cron) (now : ℕ)
    (s : State) where
  abbrev pub loaded : State
  loaded = reload_if_changed o s

  -- The task of a key has a schedule with a time after the last check, or from the start on at the
  -- first one, up to now.
  pub record Timely (k : Key) : Type 0 where
    pub entry : Entry
    pub schedule : String
    pub time : ℕ
    pub is_listed : In entry (entries loaded.config.jobs)
    pub has_key : entry_key entry ≡ k
    pub has_schedule : entry.schedule ≡ some schedule
    pub in_window :
        InWindow Due o.cron is schedule
          (window_start now (not_before loaded.last_check_time loaded.start_time))
          (is_first loaded.last_check_time)
          now
          time
