-- ===== src/Shlex.antt =====
-- Python's shlex.split(s) in POSIX mode, which splits extra arguments and hook commands: a quoted
-- part is taken whole, a backslash takes the next character, and blanks end a word.
use dockkeep.Prelude.{
  String, Char, Bool, true, false, not, ◌&&◌, ◌||◌, Option, none, some, List, [], ◌∷◌, ◌++◌, ◌<>◌,
  ◌=c=◌, is_empty, if◌then◌else◌, ◌≡◌, refl,
}

-- The lexer's state: between words, in a word, in quotes, or behind a backslash in a word or quotes.
pub data Mode : Type 0 where
  blank word escaped : Mode
  quoted escaped_in : Char → Mode

pub record Lexer : Type 0 where
  pub mode : Mode
  pub token : String
  -- a quoted part was seen, so that an empty word counts
  pub was_quoted : Bool

abbrev snoc : String → Char → String
snoc s c = s <> String.◌∷◌ c ""

abbrev is_blank : Char → Bool
is_blank c = c =c= " " || (c =c= "\t" || (c =c= "\r" || c =c= "\n"))

abbrev is_quote : Char → Bool
is_quote c = c =c= "'" || c =c= "\""

abbrev is_escape : Char → Bool
is_escape c = c =c= "\\"

abbrev fresh : Lexer
fresh = record { mode = blank; token = ""; was_quoted = false }

-- One character outside of quotes: the next state, and the word that it ends.
step_word : Char → Lexer → Lexer × List String
step_word c l =
    if is_blank c
    then (fresh, if is_empty l.token && not l.was_quoted then [] else l.token ∷ [])
    else if is_quote c
    then (record l { mode = quoted c }, [])
    else if is_escape c
    then (record l { mode = escaped }, [])
    else (record l { mode = word; token = snoc l.token c }, [])

step : Mode → Char → Lexer → Lexer × List String
unfolding step_word
step blank c l = step_word c l
step word c l = step_word c l
step (quoted q) c l =
    if c =c= q
    then (record l { mode = word; was_quoted = true }, [])
    else if is_escape c && q =c= "\""
    then (record l { mode = escaped_in q; was_quoted = true }, [])
    else (record l { token = snoc l.token c; was_quoted = true }, [])
step escaped c l = (record l { mode = word; token = snoc l.token c }, [])
step (escaped_in q) c l =
    if is_escape c || c =c= q
    then (record l { mode = quoted q; token = snoc l.token c }, [])
    else (record l { mode = quoted q; token = snoc (snoc l.token "\\") c }, [])

-- The end of the text; `none` is ValueError, for an open quote or a last backslash.
at_end : Mode → Lexer → Option (List String)
at_end blank l = some []
at_end word l = some (if is_empty l.token && not l.was_quoted then [] else l.token ∷ [])
at_end _ l = none

prepend : List String → Option (List String) → Option (List String)
prepend ws none = none
prepend ws (some vs) = some (ws ++ vs)

lex : String → Lexer → Option (List String)
unfolding step at_end prepend
lex String.[] l = at_end l.mode l
lex (String.◌∷◌ c s) l = let (l', ws) = step l.mode c l in prepend ws (lex s l')

unfoldable pub shlex_split : String → Option (List String)
unfolding lex
shlex_split s = lex s fresh

quoting :
    shlex_split "--tag 'a b' c\\ d \"e\\\"f\" ''"
    ≡ some ("--tag" ∷ "a b" ∷ "c d" ∷ "e\"f" ∷ "" ∷ [])
unfolding shlex_split
quoting = refl

open_quote : shlex_split "a 'b" ≡ none
unfolding shlex_split
open_quote = refl
