-- ===== src/Prelude/Strings/Splitting.antt =====
-- Laws of splitting at a character and of joining the pieces again.
use Prim.Native.Char.{Char}
use Prim.Native.String.append
use Prim.Native.String.{String, ◌++◌ as ◌<>◌}
use mathlib.Core.Path.{◌≡◌, refl, ap, sym, ◌∙◌}
use mathlib.Core.Bool.{false}
use mathlib.Core.Option.{Option, none, some, some-injective}
use mathlib.Core.List.{List, [], ◌∷◌}
use mathlib.Core.Logic.{inl, inr}
use native.Mathlib.Omega.{arith}
use dockkeep.Prelude.Tests.{◌=c=◌, char_eq_refl, char_eq→eq, Bool-cases}
use dockkeep.Prelude.Lists.{All}
use dockkeep.Prelude.Strings.{
  split_on, partition, has_char, join, push, cons_before, is_empty, strip_prefix,
}

pub nil-append : (t : String) → ("" <> t) ≡ t
nil-append t = append.nil t

pub cons-append : (c : Char) (s t : String) → (String.◌∷◌ c s <> t) ≡ String.◌∷◌ c (s <> t)
cons-append c s t = append.cons c s t

pub partition-append :
    (d : Char) (a b : String)
    → has_char d a ≡ false
    → partition d (a <> String.◌∷◌ d b) ≡ some (a, b)
unfolding partition has_char
partition-append d String.[] b h = rw (nil-append, char_eq_refl d)
partition-append d (String.◌∷◌ c a) b h = rw cons-append (ground (arith, partition-append d a b))

pub split_on-plain : (d : Char) (a : String) → has_char d a ≡ false → split_on d a ≡ a ∷ []
unfolding split_on has_char
split_on-plain d String.[] h = refl
split_on-plain d (String.◌∷◌ c a) h = ground (arith, split_on-plain d a)

pub split_on-append :
    (d : Char) (a b : String)
    → has_char d a ≡ false
    → split_on d (a <> String.◌∷◌ d b) ≡ a ∷ split_on d b
unfolding split_on has_char
split_on-append d String.[] b h = rw (nil-append, char_eq_refl d)
split_on-append d (String.◌∷◌ c a) b h = rw cons-append (ground (arith, split_on-append d a b))

cons_before-some :
    (c : Char) (r : Option (String × String)) (a b : String)
    → cons_before c r ≡ some (a, b)
    → (a' : String) × (r ≡ some (a', b)) × (a ≡ String.◌∷◌ c a')
cons_before-some c none a b h = cc
cons_before-some c (some (a', b')) a b h = (a', ground arith, ground arith)

-- The two parts, put together again, are the text, and the first has no separator.
pub partition-some :
    (d : Char) (s a b : String)
    → partition d s ≡ some (a, b)
    → (s ≡ a <> String.◌∷◌ d b) × (has_char d a ≡ false)
unfolding partition has_char
partition-some d String.[] a b h = cc
partition-some d (String.◌∷◌ c s) a b h = elim (Bool-cases (c =c= d)) [
  | inl e ↦
      let p : a ≡ "" = ground arith in
      let q : b ≡ s = ground arith in rw (p, q, nil-append, char_eq→eq c d e) (refl, refl)
  | inr e ↦
      let (a', r, p) = cons_before-some c (partition d s) a b (ground arith) in
      let (t, f) = partition-some d s a' b r in
      rw (p, cons-append) (ap (String.◌∷◌ c) t, ground arith)
]

join-push :
    (d : String) (c : Char) (w : String) (ws : List String)
    → join d (push c (w ∷ ws)) ≡ String.◌∷◌ c (join d (w ∷ ws))
unfolding join
join-push d c w [] = refl
join-push d c w (v ∷ ws) = cons-append c w _

-- A split is never empty.
pub split_on-cons :
    (d : Char) (s : String) → (w : String) × (ws : List String) × (split_on d s ≡ w ∷ ws)
unfolding split_on
split_on-cons d String.[] = ("", [], refl)
split_on-cons d (String.◌∷◌ c s) = elim (Bool-cases (c =c= d)) [
  | inl e ↦ ("", split_on d s, rw e)
  | inr e ↦ let (w, ws, p) = split_on-cons d s in (String.◌∷◌ c w, ws, rw e (ap (push c) p))
]

join-empty :
    (d : String) (ws : List String)
    → ((w : String) × (vs : List String) × (ws ≡ w ∷ vs))
    → join d ("" ∷ ws) ≡ d <> join d ws
unfolding join
join-empty d [] (w, vs, e) = cc
join-empty d (w ∷ ws) _ = nil-append _

-- Joining the pieces gives the text back.
pub join-split_on : (d : Char) (s : String) → join (String.◌∷◌ d "") (split_on d s) ≡ s
unfolding split_on
join-split_on d String.[] = unfold join in refl
join-split_on d (String.◌∷◌ c s) = elim (Bool-cases (c =c= d)) [
  | inl e ↦ rw (
    e,
    join-empty _ _ (split_on-cons d s),
    join-split_on d s,
    cons-append,
    nil-append,
    char_eq→eq c d e,
  )
  | inr e ↦
      let (w, ws, p) = split_on-cons d s in
      rw (e, p, join-push)
        (ap (String.◌∷◌ c) (ap (join (String.◌∷◌ d "")) (sym p) ∙ join-split_on d s))
]

-- No piece holds the separator.
push-plain :
    (d c : Char) (ws : List String)
    → (c =c= d) ≡ false
    → All (λ w. has_char d w ≡ false) ws
    → All (λ w. has_char d w ≡ false) (push c ws)
unfolding has_char
push-plain d c [] e h = (rw e, tt)
push-plain d c (w ∷ ws) e h = (rw e h.0, h.1)

pub split_on-All : (d : Char) (s : String) → All (λ w. has_char d w ≡ false) (split_on d s)
unfolding split_on
split_on-All d String.[] = (unfold has_char in refl, tt)
split_on-All d (String.◌∷◌ c s) = elim (Bool-cases (c =c= d)) [
  | inl e ↦ rw e (unfold has_char in refl, split_on-All d s)
  | inr e ↦ rw e (push-plain d c (split_on d s) e (split_on-All d s))
]

pub char-append : (d : Char) (b : String) → (String.◌∷◌ d "" <> b) ≡ String.◌∷◌ d b
char-append d b = cons-append d "" b ∙ ap (String.◌∷◌ d) (nil-append b)

-- Splitting at the separator gives the joined pieces back.
pub split_on-join :
    (d : Char) (w : String) (ws : List String)
    → All (λ x. has_char d x ≡ false) (w ∷ ws)
    → split_on d (join (String.◌∷◌ d "") (w ∷ ws)) ≡ w ∷ ws
unfolding join
split_on-join d w [] h = split_on-plain d w h.0
split_on-join d w (v ∷ ws) h = rw char-append (
    split_on-append d w (join (String.◌∷◌ d "") (v ∷ ws)) h.0
    ∙ ap (◌∷◌ w) (split_on-join d v ws h.1))

pub is_empty-append : (a b : String) → is_empty a ≡ false → is_empty (a <> b) ≡ false
is_empty-append String.[] b h = cc
is_empty-append (String.◌∷◌ c a) b h = rw cons-append

pub strip_prefix-append : (p s : String) → strip_prefix p (p <> s) ≡ some s
unfolding strip_prefix
strip_prefix-append String.[] s = ap some (nil-append s)
strip_prefix-append (String.◌∷◌ c p) s = rw (cons-append, char_eq_refl c) (strip_prefix-append p s)

-- A prefix that is stripped stood there.
pub strip_prefix-some : (p s r : String) → strip_prefix p s ≡ some r → s ≡ p <> r
unfolding strip_prefix
strip_prefix-some String.[] s r h = rw nil-append (some-injective s r h)
strip_prefix-some (String.◌∷◌ c p) String.[] r h = cc
strip_prefix-some (String.◌∷◌ c p) (String.◌∷◌ d s) r h = elim (Bool-cases (c =c= d)) [
  | inl e ↦
      rw (cons-append, char_eq→eq c d e)
        (ap (String.◌∷◌ d) (strip_prefix-some p s r (ground arith)))
  | inr e ↦ absurd (ground arith)
]

pub append_append : (a b c : String) → ((a <> b) <> c) ≡ (a <> (b <> c))
append_append String.[] b c = rw (nil-append, nil-append)
append_append (String.◌∷◌ d a) b c =
    rw (cons-append, cons-append, cons-append) (ap (String.◌∷◌ d) (append_append a b c))
