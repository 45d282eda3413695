-- ===== src/Effects/Frame.antt =====
-- Which conditions on the world the engine cannot break. A condition is closed if starting the
-- processes of a class, recording events and filing results keep it.
use dockkeep.Prelude.{String, ◌≡◌, refl, Bool, true, false, Option, List, if◌then◌else◌}
use dockkeep.Prelude.Dict.{Dict}
use dockkeep.Effects.{
  Outside, Outcome, ok, raised, Json, Process, World, Event, Trace, started, locked, unlocked,
  step_created, finish_called, M, lift, look, ◌>>=◌, emit, start_process,
}
use dockkeep.Effects.Keeps.{Keeps}

-- An event that starts no process, touches no lock and belongs to no step of the history.
abbrev pub Benign : Event → Type 0
Benign (started p held) = ⊥
Benign (locked path) = ⊥
Benign (unlocked path) = ⊥
Benign (step_created id step) = ⊥
Benign (finish_called id status error) = ⊥
Benign _ = Unit

pub record Closed (o : Outside) (A : Process → Type 0) (P : World → Type 0) : Type 0 where
  pub start : (p : Process) → A p → Keeps P (start_process o p)
  pub benign : (e : Event) → Benign e → Keeps P (emit e)
  pub file_artifacts :
      (w : World) (d : Dict (List (Option (Dict Json)))) → P w → P (record w { artifacts = d })
  pub file_ids : (w : World) (d : Dict (Dict (List String))) → P w → P (record w { step_ids = d })

module _ {P : World → Type 0} where
  pub Keeps-look {ℓ} : (o : Outside) {A : Type ℓ} (f : Trace → A) → Keeps P (look o f)
  unfolding look
  Keeps-look o f = record { at = λ w h. h }

  -- The rest may use how the value was looked up.
  pub Keeps-bind-look {ℓ κ} :
      (o : Outside) {A : Type ℓ} {B : Type κ} (f : Trace → A) (g : A → M B)
      → ((t : Trace) → Keeps P (g (f t)))
      → Keeps P (look o f >>= g)
  unfolding look ◌>>=◌
  Keeps-bind-look o f g h = record { at = λ w p. (h w.trace).at w p }

  -- The rest may use what the value that was lifted is.
  pub Keeps-bind-lift {ℓ κ} :
      {A : Type ℓ} {B : Type κ} (r : Outcome A) (f : A → M B)
      → ((a : A) → r ≡ ok a → Keeps P (f a))
      → Keeps P (lift r >>= f)
  unfolding ◌>>=◌
  Keeps-bind-lift (ok a) f h = record { at = (h a refl).at }
  Keeps-bind-lift (raised e) f h = record { at = λ w p. p }

  pub Keeps-if_eq {ℓ} :
      {A : Type ℓ} (b : Bool) (m n : M A)
      → (b ≡ true → Keeps P m)
      → (b ≡ false → Keeps P n)
      → Keeps P (if b then m else n)
  Keeps-if_eq true m n hm hn = hm refl
  Keeps-if_eq false m n hm hn = hn refl
