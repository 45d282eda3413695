-- ===== src/Locking/Paths.antt =====
-- posixpath.normpath and PurePath.parent, as far as core/locking.py uses them.
use dockkeep.Prelude.{
  String, Bool, true, false, ◌&&◌, ◌||◌, not, List, [], ◌∷◌, ◌==◌, ◌<>◌, is_empty, split_on, join,
  starts_with, replace, if◌then◌else◌, ◌≡◌, refl,
}

-- The leading slashes that stay: two are kept as two, three or more are one.
abbrev root_of : String → String
root_of path =
    if starts_with "//" path && not (starts_with "///" path)
    then "//"
    else if starts_with "/" path
    then "/"
    else ""

-- One component; the components so far, the last one first.
abbrev climb : Bool → List String → List String
climb true [] = []
climb false [] = ".." ∷ []
climb rooted (c ∷ cs) = if c == ".." then ".." ∷ c ∷ cs else cs

unfoldable pub add_component : Bool → List String → String → List String
add_component rooted done c =
    if is_empty c || c == "." then done else if c == ".." then climb rooted done else c ∷ done

unfoldable pub collapse : Bool → List String → List String → List String
collapse rooted done [] = done
collapse rooted done (c ∷ cs) = collapse rooted (add_component rooted done c) cs

abbrev pub rev_onto {ℓ} : {A : Type ℓ} → List A → List A → List A
rev_onto [] ys = ys
rev_onto (x ∷ xs) ys = rev_onto xs (x ∷ ys)

abbrev or_dot : String → String
or_dot s = if is_empty s then "." else s

unfoldable pub normpath : String → String
unfolding collapse add_component
normpath path =
    let root = root_of path in
    or_dot (root <> join "/" (rev_onto (collapse (not (is_empty root)) [] (split_on "/" path)) []))

-- `_normalize_posix_path`
unfoldable pub normalize_posix_path : String → String
unfolding normpath
normalize_posix_path value =
    let path = replace "\\" "/" value in
    let normalized = normpath (if is_empty path then "/" else path) in
    let rooted =
      if starts_with "/" path && not (starts_with "/" normalized)
      then "/" <> normalized
      else normalized in
    if rooted == "." then "/" else rooted

abbrev without_last : List String → List String
without_last [] = []
without_last (x ∷ []) = []
without_last (x ∷ y ∷ ys) = x ∷ without_last (y ∷ ys)

-- The parent of an absolute path.
unfoldable pub parent : String → String
parent path =
    let up = join "/" (without_last (split_on "/" path)) in if is_empty up then "/" else up

runs : normalize_posix_path "a//b/./../c\\d/" ≡ "a/c/d"
unfolding normalize_posix_path replace starts_with split_on join
runs = refl
