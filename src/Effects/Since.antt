-- ===== src/Effects/Since.antt =====
-- What has happened since a point in time: the events behind it, and the lock files held now.
use dockkeep.Prelude.{String, ◌≡◌, refl, ap, List, [], ◌∷◌, ◌++◌, All}
use dockkeep.Effects.{
  Outside, Process, World, Event, started, locked, unlocked, slept, step_created, finish_called,
  stats_collected, completed, Trace, start_process, emit,
}
use dockkeep.Effects.Frame.{Benign, Closed}

-- Every process satisfies `R` with the lock files held at its start.
abbrev pub Starts : (Process → List String → Type 0) → Event → Type 0
Starts R (started p held) = R p held
Starts R _ = Unit

-- The trace `t` continues `t₀` by events that all satisfy this.
abbrev pub Since : (Process → List String → Type 0) → Trace → Trace → Type 0
Since R t₀ t = (es : List Event) × (t ≡ es ++ t₀) × All (Starts R) es

pub record Frame (R : Process → List String → Type 0) (t₀ : Trace) (held : List String) (w : World)
    : Type 0 where
  pub holds : w.held ≡ held
  pub since : Since R t₀ w.trace

Benign-Starts : (R : Process → List String → Type 0) (e : Event) → Benign e → Starts R e
Benign-Starts R (started p held) b = absurd b
Benign-Starts R (locked path) b = tt
Benign-Starts R (unlocked path) b = tt
Benign-Starts R (slept n) b = tt
Benign-Starts R (step_created id step) b = absurd b
Benign-Starts R (finish_called id status error) b = absurd b
Benign-Starts R (stats_collected name context) b = tt
Benign-Starts R completed b = tt

module _ {R : Process → List String → Type 0} {t₀ : Trace} where
  pub Since-cons : {t : Trace} (e : Event) → Starts R e → Since R t₀ t → Since R t₀ (e ∷ t)
  Since-cons e h (es, p, hs) = (e ∷ es, ap (◌∷◌ e) p, (h, hs))

  pub Since-refl : Since R t₀ t₀
  Since-refl = ([], refl, tt)

  -- While the same locks are held, a frame is closed under starting what satisfies `R` with them.
  pub Frame-Closed : (o : Outside) (held : List String) → Closed o (λ p. R p held) (Frame R t₀ held)
  unfolding start_process emit
  Frame-Closed o held = record {
    start = λ p a. record {
      at = λ w f. record {
        holds = f.holds;
        since = Since-cons (started p w.held) (rw f.holds a) f.since;
      };
    };
    benign = λ e b. record {
      at = λ w f. record { holds = f.holds; since = Since-cons e (Benign-Starts R e b) f.since };
    };
    file_artifacts = λ w d f. record { holds = f.holds; since = f.since };
    file_ids = λ w d f. record { holds = f.holds; since = f.since };
  }
