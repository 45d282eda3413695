-- ===== src/Locking/Frame.antt =====
-- Taking and releasing lock files keeps every condition that lock events cannot break.
use dockkeep.Prelude.{ℕ, zero, suc, String, Bool, true, false, Option, none, some, List, [], ◌∷◌}
use dockkeep.Effects.{
  Outside, job_running, cancelled, value_error, failure, unexpected, Outcome, ok, raised, World,
  LockReply, granted, busy, lock_error, locked, unlocked, slept, acquire_file, release_file, sleep,
  answer_lock, record_event, M,
}
use dockkeep.Effects.Keeps.{Keeps, Keeps-pure, Keeps-raise, Keeps-bind, Keeps-attempt}
use dockkeep.Locking.{release_all, acquire_all, next_lock, after_attempt, acquire_with_retry}

pub record LockEvents (P : World → Type 0) : Type 0 where
  pub locked :
      (path : String) (held : List String) (w : World)
      → P w
      → P (record w { trace = locked path ∷ w.trace; held = held })
  pub unlocked :
      (path : String) (held : List String) (w : World)
      → P w
      → P (record w { trace = unlocked path ∷ w.trace; held = held })
  pub slept : (n : ℕ) (w : World) → P w → P (record_event (slept n) w)

module _ {P : World → Type 0} (c : LockEvents P) where
  pub release_all-Keeps : (paths : List String) → Keeps P (release_all paths)
  unfolding release_all release_file
  release_all-Keeps [] = Keeps-pure tt
  release_all-Keeps (p ∷ ps) =
      Keeps-bind (release_file p) _ (record { at = λ w h. c.unlocked p _ w h })
        (λ _. release_all-Keeps ps)

  module _ (o : Outside) where
    answer_lock-Keeps : (reply : LockReply) (path : String) → Keeps P (answer_lock o reply path)
    answer_lock-Keeps granted path = record { at = λ w h. c.locked path _ w h }
    answer_lock-Keeps busy path = record { at = λ w h. h }
    answer_lock-Keeps (lock_error e) path = record { at = λ w h. h }

    next_lock-Keeps :
        (acquired : List String) (p : String) (rest : M (Unit {0})) (r : Outcome Bool)
        → Keeps P rest
        → Keeps P (next_lock o acquired p rest r)
    next_lock-Keeps acquired p rest (ok true) h = h
    next_lock-Keeps acquired p rest (ok false) h =
        Keeps-bind _ _ (release_all-Keeps acquired) (λ _. Keeps-raise _)
    next_lock-Keeps acquired p rest (raised e) h =
        Keeps-bind _ _ (release_all-Keeps acquired) (λ _. Keeps-raise _)

    acquire_all-Keeps : (acquired paths : List String) → Keeps P (acquire_all o acquired paths)
    unfolding acquire_all acquire_file
    acquire_all-Keeps acquired [] = Keeps-pure tt
    acquire_all-Keeps acquired (p ∷ ps) =
        Keeps-attempt (acquire_file o p) _
          (record { at = λ w h. (answer_lock-Keeps (o.lock w.trace p) p).at w h })
          (λ r. next_lock-Keeps acquired p _ r (acquire_all-Keeps (p ∷ acquired) ps))

    after_attempt-Keeps :
        (delay : Option ℕ) (next : M (Unit {0})) (r : Outcome (Unit {0}))
        → Keeps P next
        → Keeps P (after_attempt o delay next r)
    unfolding sleep
    after_attempt-Keeps delay next (ok _) h = Keeps-pure tt
    after_attempt-Keeps none next (raised (job_running p)) h = Keeps-raise _
    after_attempt-Keeps (some n) next (raised (job_running p)) h =
        Keeps-bind (sleep o n) _ (record { at = λ w q. c.slept n w q }) (λ _. h)
    after_attempt-Keeps delay next (raised cancelled) h = Keeps-raise _
    after_attempt-Keeps delay next (raised (value_error e)) h = Keeps-raise _
    after_attempt-Keeps delay next (raised (failure e)) h = Keeps-raise _
    after_attempt-Keeps delay next (raised (unexpected e)) h = Keeps-raise _

    pub acquire_with_retry-Keeps :
        (left : ℕ) (delay : Option ℕ) (paths : List String)
        → Keeps P (acquire_with_retry o left delay paths)
    unfolding acquire_with_retry
    acquire_with_retry-Keeps zero delay paths = acquire_all-Keeps [] paths
    acquire_with_retry-Keeps (suc left) delay paths =
        Keeps-attempt _ _ (acquire_all-Keeps [] paths)
          (λ r. after_attempt-Keeps delay _ r (acquire_with_retry-Keeps left delay paths))
