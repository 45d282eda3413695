-- ===== src/Executors/Environment.antt =====
-- The environment that a restic process is given (utils/restic.py).
use dockkeep.Prelude.{
  String, ◌≡◌, refl, sym, inl, inr, Bool-cases, eq_iff, false, Option, none, some, ◌==◌,
  if◌then◌else◌, arith,
}
use dockkeep.Prelude.Dict
use dockkeep.Prelude.Dict.{Dict, lookup-insert, lookup-erase}
use dockkeep.Executors.Restic.{resolve_env, set_opt}

abbrev or_else : Option String → Option String → Option String
or_else none old = old
or_else (some v) old = some v

or_else-none : (v : Option String) → or_else v none ≡ v
or_else-none none = refl
or_else-none (some v) = refl

lookup-set_opt :
    (k j : String) (v : Option String) (d : Dict String)
    → Dict.lookup j (set_opt k v d)
      ≡ (if k == j then or_else v (Dict.lookup j d) else Dict.lookup j d)
lookup-set_opt k j none d = ground arith
lookup-set_opt k j (some v) d = lookup-insert k j v d

others_kept :
    (environ : Dict String) (password password_file : Option String) (k : String)
    → "RESTIC_PASSWORD" == k ≡ false
    → "RESTIC_PASSWORD_FILE" == k ≡ false
    → Dict.lookup k (resolve_env environ password password_file)
      ≡ (if "RESTIC_PASSWORD_COMMAND" == k then none else Dict.lookup k environ)
unfolding resolve_env
others_kept environ password password_file k a b =
    rw (lookup-set_opt, b, lookup-set_opt, a, lookup-erase, lookup-erase, b, lookup-erase, a) refl

-- What restic sees of each variable: the password and the password file of the task and no others,
-- never a password command of the surroundings, and every other variable as it was.
abbrev pub variable_of : Dict String → Option String → Option String → String → Option String
variable_of environ password password_file k =
    if "RESTIC_PASSWORD" == k
    then password
    else if "RESTIC_PASSWORD_FILE" == k
    then password_file
    else if "RESTIC_PASSWORD_COMMAND" == k
    then none
    else Dict.lookup k environ

-- Each variable of the environment for restic is the password or the password file of the task under
-- its name, nothing for a password command, and as it was under every other name.
pub lookup-resolve_env :
    (environ : Dict String) (password password_file : Option String) (k : String)
    → Dict.lookup k (resolve_env environ password password_file)
      ≡ variable_of environ password password_file k
unfolding resolve_env
lookup-resolve_env environ password password_file k = elim (Bool-cases ("RESTIC_PASSWORD" == k)) [
  | inl a ↦ rw (sym ((eq_iff "RESTIC_PASSWORD" k).0 a)) (
      rw (lookup-set_opt, lookup-set_opt, lookup-erase, lookup-erase, lookup-erase)
        (or_else-none password))
  | inr a ↦ elim (Bool-cases ("RESTIC_PASSWORD_FILE" == k)) [
    | inl b ↦ rw (sym ((eq_iff "RESTIC_PASSWORD_FILE" k).0 b)) (
        rw (lookup-set_opt, lookup-set_opt, lookup-erase, lookup-erase)
          (or_else-none password_file))
    | inr b ↦ rw (a, b) (others_kept environ password password_file k a b)
  ]
]
