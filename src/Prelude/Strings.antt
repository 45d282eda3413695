-- ===== src/Prelude/Strings.antt =====
-- Python's operations on `str` that the program uses, as recursions on the characters.
pub mod Splitting
use Prim.Native.Nat.{◌+◌}
use Prim.Native.Char.{Char, code}
use Prim.Native.String.{String, ◌++◌ as ◌<>◌}
use mathlib.Core.Path.{◌≡◌, refl}
use mathlib.Core.Bool.{Bool, true, false, ◌||◌, ◌&&◌}
use mathlib.Core.Option.{Option, none, some}
use mathlib.Core.List.{List, [], ◌∷◌}
use dockkeep.Prelude.Tests.{◌=ℕ=◌, if◌then◌else◌, ◌=c=◌}

-- `not s`
abbrev pub is_empty : String → Bool
is_empty String.[] = true
is_empty (String.◌∷◌ c s) = false

-- A character before the first piece.
abbrev pub push : Char → List String → List String
push c [] = String.◌∷◌ c "" ∷ []
push c (w ∷ ws) = String.◌∷◌ c w ∷ ws

-- `s.split(d)` for a separator of one character: never empty.
unfoldable pub split_on : Char → String → List String
split_on d String.[] = "" ∷ []
split_on d (String.◌∷◌ c s) = let rest = split_on d s in if c =c= d then "" ∷ rest else push c rest

-- `d.join(ws)`
unfoldable pub join : String → List String → String
join d [] = ""
join d (w ∷ []) = w
join d (w ∷ v ∷ ws) = w <> (d <> join d (v ∷ ws))

-- The text before the first `d` and the text after it; `none` where `s.find(d)` is -1.
abbrev cons_before : Char → Option (String × String) → Option (String × String)
cons_before c none = none
cons_before c (some (a, b)) = some (String.◌∷◌ c a, b)

unfoldable pub partition : Char → String → Option (String × String)
partition d String.[] = none
partition d (String.◌∷◌ c s) =
    let rest = partition d s in if c =c= d then some ("", s) else cons_before c rest

-- `d in s` for one character.
unfoldable pub has_char : Char → String → Bool
has_char d String.[] = false
has_char d (String.◌∷◌ c s) = c =c= d || has_char d s

-- What follows the prefix `p`, if `s.startswith(p)`.
unfoldable pub strip_prefix : String → String → Option String
strip_prefix String.[] s = some s
strip_prefix (String.◌∷◌ c p) String.[] = none
strip_prefix (String.◌∷◌ c p) (String.◌∷◌ d s) =
    let rest = strip_prefix p s in if c =c= d then rest else none

abbrev is_some : Option String → Bool
is_some none = false
is_some (some _) = true

-- `s.startswith(p)`
unfoldable pub starts_with : String → String → Bool
unfolding strip_prefix
starts_with p s = is_some (strip_prefix p s)

-- `s.lstrip(d)`
unfoldable pub lstrip : Char → String → String
lstrip d String.[] = ""
lstrip d (String.◌∷◌ c s) = let rest = lstrip d s in if c =c= d then rest else String.◌∷◌ c s

-- `s.replace(a, b)` for characters.
unfoldable pub replace : Char → Char → String → String
replace a b String.[] = ""
replace a b (String.◌∷◌ c s) = String.◌∷◌ (if c =c= a then b else c) (replace a b s)

runs : split_on "." "a..bc" ≡ "a" ∷ "" ∷ "bc" ∷ []
unfolding split_on
runs = refl

abbrev is_space : Char → Bool
is_space c =
    c =c= " " || (c =c= "\t" || (c =c= "\n" || (c =c= "\r" || (code c =ℕ= 11 || code c =ℕ= 12))))

unfoldable pub strip_start : String → String
strip_start String.[] = ""
strip_start (String.◌∷◌ c s) =
    let rest = strip_start s in if is_space c then rest else String.◌∷◌ c s

unfoldable pub strip_end : String → String
strip_end String.[] = ""
strip_end (String.◌∷◌ c s) =
    let rest = strip_end s in if is_empty rest && is_space c then "" else String.◌∷◌ c rest

-- `s.strip()`, for the blanks of ASCII.
unfoldable pub strip : String → String
unfolding strip_start strip_end
strip s = strip_end (strip_start s)

-- `s[:-1]`, if `s` ends with the character `d`.
abbrev cons_init : Char → Char → String → Option String → Option String
cons_init d c String.[] r = if c =c= d then some "" else none
cons_init d c (String.◌∷◌ _ _) none = none
cons_init d c (String.◌∷◌ _ _) (some t) = some (String.◌∷◌ c t)

unfoldable pub strip_last : Char → String → Option String
strip_last d String.[] = none
strip_last d (String.◌∷◌ c s) = cons_init d c s (strip_last d s)

-- `s.lower() == w` for a word `w` of lower-case ASCII letters.
abbrev same_letter : Char → Char → Bool
same_letter w c = code c =ℕ= code w || code c + 32 =ℕ= code w

unfoldable pub equals_lower : String → String → Bool
equals_lower String.[] String.[] = true
equals_lower String.[] (String.◌∷◌ c s) = false
equals_lower (String.◌∷◌ d w) String.[] = false
equals_lower (String.◌∷◌ d w) (String.◌∷◌ c s) = same_letter d c && equals_lower w s

lower_runs : equals_lower "true" "TrUe" ≡ true
unfolding equals_lower
lower_runs = refl
