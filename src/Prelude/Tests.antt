-- ===== src/Prelude/Tests.antt =====
-- Boolean tests on numbers and characters, `if`, and the case lemmas for tests and options.
use Prim.Native.Nat.{ℕ, ◌≤◌, ◌<◌, compare, Ordering}
use Prim.Native.Char.{Char, code}
use mathlib.Core.Path.{◌≡◌, refl}
use mathlib.Core.Logic.{◌⊎◌, inl, inr}
use mathlib.Core.Bool.{Bool, true, false}
use mathlib.Core.Option.{Option, none, some}
use native.Mathlib.Omega.{arith}
use text.Mathlib.TextEquality.{Char-path}

-- Whole numbers, over the native natural numbers.
pub data ℤ : Type 0 where
  pos negsuc : ℕ → ℤ

abbrev pub ltb : ℕ → ℕ → Bool
ltb a b = elim (compare a b) [ Ordering.lt ↦ true | _ ↦ false ]

abbrev pub leb : ℕ → ℕ → Bool
leb a b = elim (compare a b) [ Ordering.gt ↦ false | _ ↦ true ]

infix 50 ◌=ℕ=◌ ◌=c=◌
abbrev pub ◌=ℕ=◌ : ℕ → ℕ → Bool
a =ℕ= b = elim (compare a b) [ Ordering.eq ↦ true | _ ↦ false ]

infix 1 if◌then◌else◌
abbrev pub if◌then◌else◌ {ℓ} : {A : Type ℓ} → Bool → A → A → A
if true then x else y = x
if false then x else y = y

pub ltb→lt : (a b : ℕ) → ltb a b ≡ true → a < b
ltb→lt a b h = ground arith

pub leb→le : (a b : ℕ) → leb a b ≡ true → a ≤ b
leb→le a b h = ground arith

-- To split on a computed test or option and keep the equation.
pub Bool-cases : (b : Bool) → (b ≡ true) ⊎ (b ≡ false)
Bool-cases true = inl refl
Bool-cases false = inr refl

pub Option-cases {ℓ} : {A : Type ℓ} (x : Option A) → (x ≡ none) ⊎ ((a : A) × (x ≡ some a))
Option-cases none = inl refl
Option-cases (some a) = inr (a, refl)

-- What both branches of an `if` agree on.
pub if-same {ℓ κ} :
    {A : Type ℓ} {B : Type κ} (f : A → B) (b : Bool) (x y : A)
    → f x ≡ f y
    → f (if b then x else y) ≡ f y
if-same f true x y e = e
if-same f false x y e = refl

pub if-holds {ℓ κ} :
    {A : Type ℓ} (P : A → Type κ) (b : Bool) (x y : A) → P x → P y → P (if b then x else y)
if-holds P true x y hx hy = hx
if-holds P false x y hx hy = hy

-- Equality of characters, by their numbers.
abbrev pub ◌=c=◌ : Char → Char → Bool
c =c= d = code c =ℕ= code d

same_number : (m n : ℕ) → (m =ℕ= n) ≡ true → m ≡ n
same_number m n h = ground arith

number_refl : (m : ℕ) → (m =ℕ= m) ≡ true
number_refl m = ground arith

pub char_eq→eq : (c d : Char) → (c =c= d) ≡ true → c ≡ d
char_eq→eq c d h = Char-path c d (same_number (code c) (code d) h)

pub char_eq_refl : (c : Char) → (c =c= c) ≡ true
char_eq_refl c = number_refl (code c)
