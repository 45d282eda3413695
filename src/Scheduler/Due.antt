-- ===== src/Scheduler/Due.antt =====
-- `_is_due`: whether a schedule was due since a time. Times are numbers of microseconds. The package
-- croniter is a parameter: `cron schedule t` is `croniter(schedule, t).get_prev()`, and `none` one of
-- its exceptions; the conversion of a time to the local zone before it is part of it.
use dockkeep.Prelude.{
  ℕ, suc, ◌*◌, ◌-◌, ◌≤◌, ◌<◌, ◌≡◌, String, Bool, true, false, Option, none, some, ltb, leb,
}

abbrev pub Cron : Type 0
Cron = String → ℕ → Option ℕ

-- What croniter documents: the latest of the times of the schedule before `t`, and an exception only
-- if there is none.
pub record IsCron (Due : String → ℕ → Type 0) (cron : Cron) : Type 0 where
  pub is_time : (s : String) (t d : ℕ) → cron s t ≡ some d → Due s d
  pub is_before : (s : String) (t d : ℕ) → cron s t ≡ some d → d < t
  pub is_latest : (s : String) (t d e : ℕ) → cron s t ≡ some d → Due s e → e < t → e ≤ d
  pub is_found : (s : String) (t e : ℕ) → cron s t ≡ none → Due s e → e < t → ⊥

abbrev window_seconds : ℕ
window_seconds = 60

abbrev pub window_start : ℕ → Option ℕ → ℕ
window_start now (some not_before) = not_before
window_start now none = now - window_seconds * 1000000

abbrev pub reached : Bool → ℕ → Option ℕ → Bool
reached include start none = false
reached true start (some last_due) = leb start last_due
reached false start (some last_due) = ltb start last_due

abbrev pub is_first : Option ℕ → Bool
is_first none = true
is_first (some last) = false

unfoldable pub is_due : Cron → String → ℕ → Option ℕ → Bool → Bool
is_due cron schedule now not_before include =
    reached include (window_start now not_before) (cron schedule (suc now))

-- The start of a window, which belongs to it or does not.
abbrev pub Starts : Bool → ℕ → ℕ → Type 0
Starts true start d = start ≤ d
Starts false start d = start < d

module _ (Due : String → ℕ → Type 0) (cron : Cron) (is : IsCron Due cron) where
  -- The times of a schedule in a window that ends at `now`.
  abbrev pub InWindow : String → ℕ → Bool → ℕ → ℕ → Type 0
  InWindow s start include now d = Due s d × (Starts include start d × (d ≤ now))
