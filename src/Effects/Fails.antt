-- ===== src/Effects/Fails.antt =====
-- Actions that never return `true`.
use dockkeep.Prelude.{◌≡◌, refl, Bool, true, false, if◌then◌else◌}
use dockkeep.Effects.{Outcome, ok, raised, World, M, pure, attempt, ◌>>=◌, continue}

-- The outcome is not a success: `false`, or an exception.
abbrev pub Fails : Outcome Bool → Type 0
Fails (ok b) = b ≡ false
Fails (raised e) = Unit

pub record Never (m : M Bool) : Type 0 where
  pub at : (w : World) → Fails (m w).0

pub Never-pure : Never (pure false)
unfolding pure
Never-pure = record { at = λ w. refl }

pub Never-if : (b : Bool) (m n : M Bool) → Never m → Never n → Never (if b then m else n)
Never-if true m n hm hn = hm
Never-if false m n hm hn = hn

module _ {ℓ} {A : Type ℓ} where
  Never-continue :
      (f : A → M Bool)
      → ((a : A) → Never (f a))
      → (r : Outcome A) (w : World) → Fails (continue f r w).0
  Never-continue f h (ok a) w = (h a).at w
  Never-continue f h (raised e) w = tt

  pub Never-bind : (m : M A) (f : A → M Bool) → ((a : A) → Never (f a)) → Never (m >>= f)
  unfolding ◌>>=◌ attempt
  Never-bind m f h = record { at = λ w. Never-continue f h (m w).0 (m w).1 }
