-- ===== src/Effects/Keeps.antt =====
-- Invariants of actions, by one rule for each way to build an action.
use dockkeep.Prelude.{Bool, true, false, if◌then◌else◌}
use dockkeep.Effects.{
  Exn, Outcome, ok, raised, World, M, pure, raise, lift, attempt, ◌>>=◌, finally, unless, continue,
  finish,
}

-- `m` keeps `P`, whether it returns or raises.
pub record Keeps {ℓ} {A : Type ℓ} (P : World → Type 0) (m : M A) : Type ℓ where
  pub at : (w : World) → P w → P (m w).1

module _ {ℓ} {A : Type ℓ} {P : World → Type 0} where
  pub Keeps-pure : (a : A) → Keeps P (pure a)
  unfolding pure
  Keeps-pure a = record { at = λ w h. h }

  pub Keeps-raise : (e : Exn) → Keeps P (raise {A = A} e)
  unfolding raise
  Keeps-raise e = record { at = λ w h. h }

  pub Keeps-lift : (r : Outcome A) → Keeps P (lift r)
  unfolding lift
  Keeps-lift r = record { at = λ w h. h }

  pub Keeps-if : (b : Bool) (m n : M A) → Keeps P m → Keeps P n → Keeps P (if b then m else n)
  Keeps-if true m n hm hn = hm
  Keeps-if false m n hm hn = hn

module _ {ℓ κ} {A : Type ℓ} {B : Type κ} {P : World → Type 0} where
  pub Keeps-attempt :
      (m : M A) (k : Outcome A → M B)
      → Keeps P m
      → ((r : Outcome A) → Keeps P (k r))
      → Keeps P (attempt m k)
  unfolding attempt
  Keeps-attempt m k hm hk = record { at = λ w h. (hk (m w).0).at (m w).1 (hm.at w h) }

  pub Keeps-continue :
      (f : A → M B) → ((a : A) → Keeps P (f a)) → (r : Outcome A) → Keeps P (continue f r)
  Keeps-continue f h (ok a) = record { at = (h a).at }
  Keeps-continue f h (raised e) = record { at = λ w p. p }

  pub Keeps-bind :
      (m : M A) (f : A → M B) → Keeps P m → ((a : A) → Keeps P (f a)) → Keeps P (m >>= f)
  unfolding ◌>>=◌
  Keeps-bind m f hm hf = Keeps-attempt m (continue f) hm (Keeps-continue f hf)

module _ {ℓ} {A : Type ℓ} {P : World → Type 0} where
  pub Keeps-finally : (m : M A) (f : M (Unit {0})) → Keeps P m → Keeps P f → Keeps P (finally m f)
  unfolding finally
  Keeps-finally m f hm hf =
      Keeps-attempt m _ hm (λ r. Keeps-attempt f _ hf (λ s. Keeps-lift (finish r s)))

pub Keeps-unless :
    {P : World → Type 0} (b : Bool) (n k : M Bool) → Keeps P n → Keeps P k → Keeps P (unless b n k)
Keeps-unless true n k hn hk = hk
Keeps-unless false n k hn hk = hn

pub ruleset keeps_rules = (
  Keeps-pure, Keeps-raise, Keeps-lift, Keeps-if, Keeps-attempt, Keeps-bind, Keeps-finally,
  Keeps-unless,
)
