-- ===== src/Scheduler/Shown.antt =====
-- What a reader of the scheduler status learns about what was written.
use dockkeep.Prelude.{
  ℕ, ◌+◌, ◌*◌, ◌≤◌, ◌≡◌, ◌≢◌, refl, sym, ap, ◌∙◌, subst, String, Bool, true, false, false≢true,
  ◌&&◌, Option, none, some, leb, leb→le, if◌then◌else◌, is_empty, arith,
}
use mathlib.Core.Logic.{◌↔◌}
use dockkeep.Prelude.Dict.{lookup}
use dockkeep.Scheduler.Health.{
  ℤ, SchedulerState, running, stopped, unknown, config_error, scheduler_lock_error, SchedulerOwner,
  gui, scheduler_cli, SchedulerStatusError, SchedulerStatus, status_version, Surroundings, holding,
  status, scalar, text, format_dt, state_text, owner_value, text_value, int_value, float_value,
  error_value, to_dict, int_of, float_of, text_of, coerce_state, coerce_owner, error_of,
  checked_status, from_dict, write, is_fresh, timestamp, fresh_at, recent, is_gui, is_start_error,
  is_lock_error, unknown_status, status_from_raw, evaluate, evaluated, read,
}

-- A time that was written is read again.
pub record Formats (o : Surroundings) : Type 0 where
  pub again : (t : ℕ) → o.fromisoformat (o.isoformat t) ≡ some t
  pub full : (t : ℕ) → is_empty (o.isoformat t) ≡ false

-- The last tick, or the start if there is none.
abbrev latest : Option ℕ → Option ℕ → Option ℕ
latest none started_at = started_at
latest (some t) started_at = some t

-- It is not older than the limit.
abbrev pub Recent : Surroundings → Option ℕ → Option ℕ → Type 0
Recent o started_at last_tick_at =
    (t : ℕ) × ((latest last_tick_at started_at ≡ some t)
      × (o.now ≤ t + o.stale_after_seconds * 1000000))

-- What `r`, the status that is shown, says of `w`, the status that was written.
pub record Tells (held : Bool) (R : Type 0) (w r : SchedulerStatus) : Type 0 where
  -- it shows a running scheduler if and only if the lock is held, the file is recent and does not
  -- report that the lock was held by another
  pub is_running : (r.state ≡ running) ↔ ((held ≡ true) × (R × (w.state ≢ scheduler_lock_error)))
  -- it is unknown if and only if the lock is held but the file is not recent
  pub is_unknown : (r.state ≡ unknown) ↔ ((held ≡ true) × (R → ⊥))
  -- it shows a stopped scheduler only if the lock is free
  pub is_stopped : r.state ≡ stopped → held ≡ false
  -- whatever it shows but unknown, the rest is what was written
  pub is_kept : r.state ≢ unknown → r ≡ record w { state = r.state }

lock_error_of : (x : SchedulerState) → is_lock_error x ≡ true → x ≡ scheduler_lock_error
lock_error_of running h = absurd (false≢true h)
lock_error_of stopped h = absurd (false≢true h)
lock_error_of unknown h = absurd (false≢true h)
lock_error_of config_error h = absurd (false≢true h)
lock_error_of scheduler_lock_error h = refl

-- Two states that a test tells apart.
apart :
    (test : SchedulerState → Bool) (x y : SchedulerState) → test x ≡ true → test y ≡ false → x ≢ y
apart test x y h k e = false≢true (sym k ∙ ap test (sym e) ∙ h)

abbrev is_unknown_state : SchedulerState → Bool
is_unknown_state unknown = true
is_unknown_state _ = false

abbrev is_running_state : SchedulerState → Bool
is_running_state running = true
is_running_state _ = false

last_of : (a b c : Bool) → (a && b && c) ≡ true → c ≡ true
last_of true true c h = h
last_of true false c h = absurd (false≢true h)
last_of false b c h = absurd (false≢true h)

module _ (w : SchedulerStatus) (R : Type 0) where
  abbrev with_state : SchedulerState → SchedulerStatus
  with_state x = record w { state = x; version = status_version }

  as_unknown : (m : String) → (R → ⊥) → Tells true R w (unknown_status m)
  unfolding unknown_status
  as_unknown m old = record {
    is_running =
        (λ e. absurd (apart is_unknown_state unknown running refl refl e), λ t. absurd (old t.1.0));
    is_unknown = (λ e. (refl, old), λ t. refl);
    is_stopped = λ e. absurd (apart is_unknown_state unknown stopped refl refl e);
    is_kept = λ h. absurd (h refl);
  }

  as_lock_error : R → is_lock_error w.state ≡ true → Tells true R w w
  as_lock_error h l = record {
    is_running = (
      λ e. absurd (apart is_lock_error w.state running l refl e),
      λ t. absurd (t.1.1 (lock_error_of w.state l)),
    );
    is_unknown = (λ e. absurd (apart is_lock_error w.state unknown l refl e), λ t. absurd (t.1 h));
    is_stopped = λ e. absurd (apart is_lock_error w.state stopped l refl e);
    is_kept = λ k. refl;
  }

  module _ (v : w.version ≡ status_version) where
    kept : (x : SchedulerState) → with_state x ≡ record w { state = x }
    kept x = ap (λ n. record w { state = x; version = n }) (sym v)

    as_running : R → is_lock_error w.state ≡ false → Tells true R w (with_state running)
    as_running h l = record {
      is_running = (
        λ e. (refl, (h, λ e. apart is_lock_error scheduler_lock_error w.state refl l (sym e))),
        λ t. refl,
      );
      is_unknown =
          (λ e. absurd (apart is_running_state running unknown refl refl e), λ t. absurd (t.1 h));
      is_stopped = λ e. absurd (apart is_running_state running stopped refl refl e);
      is_kept = λ k. kept running;
    }

    as_stopped : Tells false R w (with_state stopped)
    as_stopped = record {
      is_running = (
        λ e. absurd (apart is_running_state running stopped refl refl (sym e)),
        λ t. absurd (false≢true t.0),
      );
      is_unknown = (
        λ e. absurd (apart is_unknown_state unknown stopped refl refl (sym e)),
        λ t. absurd (false≢true t.0),
      );
      is_stopped = λ e. refl;
      is_kept = λ k. kept stopped;
    }

    as_start_error : is_start_error w.state ≡ true → Tells false R w w
    as_start_error l = record {
      is_running = (
        λ e. absurd (apart is_start_error w.state running l refl e),
        λ t. absurd (false≢true t.0),
      );
      is_unknown = (
        λ e. absurd (apart is_start_error w.state unknown l refl e),
        λ t. absurd (false≢true t.0),
      );
      is_stopped = λ e. refl;
      is_kept = λ k. refl;
    }

    -- The choice by a test whose value the proof may use.
    shown {ℓ} :
        (P : SchedulerStatus → Type ℓ) (b : Bool) (x y : SchedulerStatus)
        → (b ≡ true → P x)
        → (b ≡ false → P y)
        → P (if b then x else y)
    shown P true x y h k = h refl
    shown P false x y h k = k refl

    evaluate-Tells :
        (held fresh : Bool)
        → (fresh ≡ true → R)
        → (R → fresh ≡ true)
        → Tells held R w (evaluate held fresh (some w))
    unfolding evaluate status_from_raw unknown_status
    evaluate-Tells false fresh there back =
        shown (Tells false R w) (fresh && is_gui w.owner && is_start_error w.state) w
          (with_state stopped)
          (λ h. as_start_error (last_of fresh (is_gui w.owner) (is_start_error w.state) h))
          (λ h. as_stopped)
    evaluate-Tells true false there back =
        as_unknown "Scheduler lock is held but status is missing or stale"
          (λ r. false≢true (back r))
    evaluate-Tells true true there back =
        shown (Tells true R w) (is_lock_error w.state) w (with_state running)
          (as_lock_error (there refl)) (as_running (there refl))

le→leb : (a b : ℕ) → a ≤ b → leb a b ≡ true
le→leb a b h = ground (arith, h)

taken : {A : Type 0} (x y : A) → some x ≡ some y → x ≡ y
taken x y e = cc e

module _ (o : Surroundings) (f : Formats o) where
  abbrev limit : ℕ
  limit = o.stale_after_seconds * 1000000

  recent_lem :
      (t : Option ℕ) → (recent o t ≡ true) ↔ ((u : ℕ) × ((t ≡ some u) × (o.now ≤ u + limit)))
  recent_lem none = (λ h. absurd (false≢true h), λ t. absurd (cc t.1.0))
  recent_lem (some t) = (
    λ h. (t, (refl, leb→le o.now (t + limit) h)),
    λ u. le→leb o.now (t + limit) (subst (λ x. o.now ≤ x + limit) (sym (taken t u.0 u.1.0)) u.1.1),
  )

  fresh_at_lem : (t : Option ℕ) → fresh_at o (format_dt o t) ≡ recent o t
  fresh_at_lem none = refl
  fresh_at_lem (some t) = ap (recent o) (f.again t)

  timestamp_lem :
      (started_at last_tick_at : Option ℕ)
      → timestamp (format_dt o last_tick_at) (format_dt o started_at)
        ≡ format_dt o (latest last_tick_at started_at)
  timestamp_lem started_at none = refl
  timestamp_lem started_at (some t) =
      ap (λ b. if b then format_dt o started_at else some (o.isoformat t)) (f.full t)

text_back : (x : Option String) → text_of (text_value x) ≡ x
unfolding text_of text_value
text_back none = refl
text_back (some t) = refl

int_back : (x : Option ℤ) → int_of (int_value x) ≡ x
unfolding int_of int_value
int_back none = refl
int_back (some t) = refl

float_back : (x : Option ℤ) → float_of (float_value x) ≡ x
unfolding float_of float_value
float_back none = refl
float_back (some t) = refl

state_back : (x : SchedulerState) → coerce_state (scalar (text (state_text x))) ≡ some x
unfolding coerce_state state_text
state_back running = refl
state_back stopped = refl
state_back unknown = refl
state_back config_error = refl
state_back scheduler_lock_error = refl

owner_back : (x : Option SchedulerOwner) → coerce_owner (owner_value x) ≡ some x
unfolding coerce_owner owner_value
owner_back none = refl
owner_back (some gui) = refl
owner_back (some scheduler_cli) = refl

module _ (o : Surroundings) where
  error_back : (x : Option SchedulerStatusError) → error_of o (error_value x) ≡ x
  unfolding error_of error_value lookup
  error_back none = refl
  error_back (some e) = refl

  from_dict-to_dict : (s : SchedulerStatus) → from_dict o (to_dict s) ≡ some s
  unfolding from_dict checked_status to_dict lookup int_of
  from_dict-to_dict s =
      let d = to_dict s in
      ap (λ x. checked_status o x (coerce_owner (owner_value s.owner)) d) (state_back s.state)
      ∙ ap (λ x. checked_status o (some s.state) x d) (owner_back s.owner)
      ∙ (λ i. some (record {
        state = s.state;
        pid = int_back s.pid i;
        started_at = text_back s.started_at i;
        last_tick_at = text_back s.last_tick_at i;
        config_path = text_back s.config_path i;
        config_mtime = float_back s.config_mtime i;
        owner = s.owner;
        error = error_back s.error i;
        version = s.version;
      }))

module _ (o : Surroundings) (f : Formats o) (strict : Bool) (state : SchedulerState)
    (owner : Option SchedulerOwner) (started_at last_tick_at : Option ℕ)
    (config_path : Option String) (config_mtime : Option ℤ)
    (error : Option SchedulerStatusError) where
  abbrev pub written : SchedulerStatus
  unfolding write
  written = write o state owner started_at last_tick_at config_path config_mtime error

  written-is_fresh : is_fresh o written ≡ recent o (latest last_tick_at started_at)
  unfolding is_fresh write
  written-is_fresh =
      ap (fresh_at o) (timestamp_lem o f started_at last_tick_at)
      ∙ fresh_at_lem o f (latest last_tick_at started_at)

  -- A status that was written is read again as what it means now: it shows a running scheduler if and
  -- only if the lock is held and the last tick, or the start before the first one, is recent, unless it
  -- reports that the lock was held by another; it is unknown if and only if the lock is held and it is
  -- not recent; it shows a stopped scheduler only if the lock is free; but for unknown, the rest is as
  -- it was written. Times in the file are read as they were formatted.
  pub read-write :
      (r : SchedulerStatus) × ((read o strict (holding (to_dict written)) ≡ status r)
        × Tells o.lock_held (Recent o started_at last_tick_at) written r)
  unfolding read write evaluated is_fresh to_dict
  read-write =
      let m = recent_lem o f (latest last_tick_at started_at) in
      (
        evaluate o.lock_held (is_fresh o written) (some written),
        (
          ap (evaluated o) (from_dict-to_dict o written),
          evaluate-Tells written (Recent o started_at last_tick_at) refl o.lock_held
              (is_fresh o written) (λ h. m.0 (sym written-is_fresh ∙ h))
              (λ r. written-is_fresh ∙ m.1 r),
        ),
      )
