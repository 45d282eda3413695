-- ===== src/Locking/Held.antt =====
-- The lock files that are held after taking and after releasing them (core/locking.py, and
-- `_acquire_with_retry` of core/job_runner.py).
use dockkeep.Prelude.{
  ℕ, zero, suc, String, ◌≡◌, refl, ap, Option, none, some, List, [], ◌∷◌, ◌++◌, eq_refl, Bool-cases,
  inl, inr,
}
use dockkeep.Effects.{
  Outside, Process, Trace, Exn, job_running, Outcome, ok, raised, World, LockReply, granted, busy,
  lock_error, pure, raise, attempt, ◌>>=◌, ◌>>◌, release_file, acquire_file, answer_lock,
  remove_first, locked, unlocked, slept, sleep, record_event,
}
use dockkeep.Effects.Since.{Frame, Since-cons}
use dockkeep.Locking.{
  release_all, acquire_all, acquire_with_retry, next_lock, after_attempt, rev_onto,
}

module _ (R : Process → List String → Type 0) (t₀ : Trace) where
  release_file-Frame :
      (p : String) (held : List String) (w : World)
      → Frame R t₀ (p ∷ held) w
      → Frame R t₀ held (release_file p w).1
  unfolding release_file remove_first
  release_file-Frame p held w f = record {
    holds = rw f.holds (rw (eq_refl p));
    since = Since-cons (unlocked p) tt f.since;
  }

  pub release_all-Frame :
      (taken held : List String) (w : World)
      → Frame R t₀ (taken ++ held) w
      → ((release_all taken w).0 ≡ ok tt) × Frame R t₀ held (release_all taken w).1
  unfolding release_all ◌>>=◌ release_file
  release_all-Frame [] held w f = (refl, f)
  release_all-Frame (p ∷ taken) held w f =
      release_all-Frame taken held (release_file p w).1 (release_file-Frame p (taken ++ held) w f)

  -- Where the locks are taken, all of them are held; where not, none of them.
  abbrev pub Taken : List String → List String → Outcome (Unit {0}) × World → Type 0
  Taken taken held (ok _, w) = Frame R t₀ (taken ++ held) w
  Taken taken held (raised e, w) = Frame R t₀ held w

  give_up :
      (taken all held : List String) (e : Exn) (w : World)
      → Frame R t₀ (taken ++ held) w
      → Taken all held ((release_all taken >> raise e) w)
  unfolding ◌>>=◌
  give_up taken all held e w f = let (done, g) = release_all-Frame taken held w f in rw done g

  after_reply :
      (o : Outside) (taken ps held : List String) (p : String) (w : World) (reply : LockReply)
      → Frame R t₀ (taken ++ held) w
      → ((v : World)
          → Frame R t₀ (p ∷ taken ++ held) v
          → Taken (rev_onto ps (p ∷ taken)) held (acquire_all o (p ∷ taken) ps v))
      → Taken (rev_onto (p ∷ ps) taken) held (
          let (r, w') = answer_lock o reply p w in
          next_lock o taken p (acquire_all o (p ∷ taken) ps) r w')
  after_reply o taken ps held p w granted f rest =
      rest (answer_lock o granted p w).1
        (record { holds = ap (◌∷◌ p) f.holds; since = Since-cons (locked p) tt f.since })
  after_reply o taken ps held p w busy f rest = give_up taken _ held _ w f
  after_reply o taken ps held p w (lock_error e) f rest = give_up taken _ held _ w f

  acquire_all-Taken :
      (o : Outside) (taken ps held : List String) (w : World)
      → Frame R t₀ (taken ++ held) w
      → Taken (rev_onto ps taken) held (acquire_all o taken ps w)
  unfolding acquire_all acquire_file attempt pure
  acquire_all-Taken o taken [] held w f = f
  acquire_all-Taken o taken (p ∷ ps) held w f =
      after_reply o taken ps held p w (o.lock w.trace p) f (acquire_all-Taken o (p ∷ taken) ps held)

  retried :
      (o : Outside) (left : ℕ) (delay : Option ℕ) (ps held : List String) (r : Outcome (Unit {0}))
      (w : World)
      → Taken (rev_onto ps []) held (r, w)
      → ((v : World)
          → Frame R t₀ held v
          → Taken (rev_onto ps []) held (acquire_with_retry o left delay ps v))
      → Taken (rev_onto ps []) held (after_attempt o delay (acquire_with_retry o left delay ps) r w)
  unfolding sleep pure raise ◌>>=◌
  retried o left delay ps held (ok u) w f next = f
  retried o left none ps held (raised (job_running p)) w f next = f
  retried o left (some n) ps held (raised (job_running p)) w f next =
      let g : Frame R t₀ held (record_event (slept n) w) = record {
        holds = f.holds;
        since = Since-cons (slept n) tt f.since;
      } in
      elim (Bool-cases (o.wakes w.trace)) [ inl e ↦ rw e g | inr e ↦ rw e (next _ g) ]
  retried o left delay ps held (raised e) w f next = f

  -- However often the locks are tried, in the end all are held or none.
  pub acquire_with_retry-Taken :
      (o : Outside) (left : ℕ) (delay : Option ℕ) (ps held : List String) (w : World)
      → Frame R t₀ held w
      → Taken (rev_onto ps []) held (acquire_with_retry o left delay ps w)
  unfolding acquire_with_retry attempt
  acquire_with_retry-Taken o zero delay ps held w f = acquire_all-Taken o [] ps held w f
  acquire_with_retry-Taken o (suc left) delay ps held w f =
      let (r, w') = acquire_all o [] ps w in
      retried o left delay ps held r w' (acquire_all-Taken o [] ps held w f)
        (acquire_with_retry-Taken o left delay ps held)
