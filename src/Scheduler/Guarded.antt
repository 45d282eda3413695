-- ===== src/Scheduler/Guarded.antt =====
-- What the scheduler does under its lock, and how often it reports its start.
use dockkeep.Prelude.{ℕ, ◌≡◌, Bool, true, false, List, [], ◌∷◌}
use dockkeep.Scheduler.State.{Action, slept, locked, unlocked, start_result, Trace, Outside, State}

-- Whether the scheduler holds its lock.
abbrev pub is_locked : Trace → Bool
is_locked [] = false
is_locked (locked ∷ t) = true
is_locked (unlocked ∷ t) = false
is_locked (_ ∷ t) = is_locked t

-- The actions that need the lock: all but the attempts and their result.
abbrev pub needs_lock : Action → Bool
needs_lock locked = false
needs_lock unlocked = true
needs_lock slept = false
needs_lock (start_result r m) = false
needs_lock _ = true

-- Each action that needs the lock was done while it was held.
abbrev pub IsGuarded : Trace → Type 0
IsGuarded [] = Unit
IsGuarded (a ∷ t) = (needs_lock a ≡ true → is_locked t ≡ true) × IsGuarded t

abbrev Inside : Trace → Type 0
Inside t = (is_locked t ≡ true) × IsGuarded t

module _ (o : Outside) (nows : List ℕ) where
  -- Outside the lock.
  abbrev pub IsOutside : Trace → Type 0
  IsOutside t = (is_locked t ≡ false) × IsGuarded t
