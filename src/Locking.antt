-- ===== src/Locking.antt =====
-- core/locking.py: the resources of a run, and the lock files that make it exclusive.
mod Paths
pub mod Order
pub mod Identity
pub mod Held
pub mod Frame
unfoldable pub use Paths.{normalize_posix_path, parent, rev_onto}
use Prim.Native.Nat.{Ordering}
use Prim.Native.String.{compare}
use dockkeep.Prelude.{
  ℕ, zero, suc, String, Bool, true, false, not, ◌&&◌, ◌||◌, Option, none, some, List, [], ◌∷◌, map,
  ◌==◌, ◌<>◌, is_empty, has_char, partition, starts_with, strip_prefix, lstrip, if◌then◌else◌,
}
use dockkeep.Effects.{
  Outside, Exn, job_running, value_error, Outcome, ok, raised, Trace, M, pure, raise, attempt,
  ◌>>=◌, ◌>>◌, acquire_file, release_file, sleep, look,
}

-- `_split_rclone_endpoint`
abbrev pub endpoint_parts : Option (String × String) → Option (String × String)
endpoint_parts none = none
endpoint_parts (some (remote, path)) =
    if is_empty remote || has_char "/" remote then none else some (remote, lstrip "/" path)

unfoldable pub split_rclone_endpoint : String → Option (String × String)
split_rclone_endpoint value = endpoint_parts (partition ":" value)

abbrev pub rclone_id : Option (String × String) → Option String
rclone_id none = none
rclone_id (some (remote, path)) = some ("rclone:" <> (remote <> (":" <> normalize_posix_path path)))

abbrev pub repository_endpoint : Option String → Option String
repository_endpoint none = none
repository_endpoint (some rest) = rclone_id (split_rclone_endpoint rest)

abbrev pub direct_endpoint : Bool → String → Option String
direct_endpoint true value = rclone_id (split_rclone_endpoint value)
direct_endpoint false value = none

abbrev pub first_id : Option String → Option String → String → String
first_id (some a) _ c = a
first_id none (some b) c = b
first_id none none c = c

-- `resolve` is `Path(value).expanduser().resolve(strict=False)`.
module _ (resolve : String → String) where
  abbrev pub local_id : String → String
  local_id value =
      if starts_with "/" value || starts_with "~" value
      then "local:" <> resolve value
      else "repo:" <> value

  unfoldable pub canonical_resource_id : Bool → String → String
  unfolding split_rclone_endpoint
  canonical_resource_id allow_direct value =
      first_id (repository_endpoint (strip_prefix "rclone:" value))
        (direct_endpoint allow_direct value) (local_id value)

  unfoldable pub resource_for_repository : String → String
  resource_for_repository repository = canonical_resource_id false repository

  unfoldable pub resource_for_rclone_endpoint : String → String
  resource_for_rclone_endpoint endpoint = canonical_resource_id true endpoint

-- The exception of `canonical_resource_id`: only the path of a local resource is resolved.
abbrev pub unless_id : Option String → Option String → Option String → Option String
unless_id none none e = e
unless_id _ _ e = none

unfoldable pub canonical_error : (String → Option String) → Bool → String → Option String
unfolding split_rclone_endpoint
canonical_error resolve_error allow_direct value =
    unless_id (repository_endpoint (strip_prefix "rclone:" value))
      (direct_endpoint allow_direct value)
      (if starts_with "/" value || starts_with "~" value then resolve_error value else none)

-- Python's `sorted(set(resources), key=resource_id)`: each resource once, in the order of the texts.
abbrev pub place : Ordering → String → String → List String → List String → List String
place Ordering.lt x y ys rest = x ∷ y ∷ ys
place Ordering.eq x y ys rest = y ∷ ys
place Ordering.gt x y ys rest = y ∷ rest

unfoldable pub insert_sorted : String → List String → List String
insert_sorted x [] = x ∷ []
insert_sorted x (y ∷ ys) = place (compare x y) x y ys (insert_sorted x ys)

unfoldable pub sorted_set : List String → List String
unfolding insert_sorted
sorted_set [] = []
sorted_set (x ∷ xs) = insert_sorted x (sorted_set xs)

-- The lock file of a resource; `digest` is the hexadecimal SHA-256 of its identifier.
module _ (digest : String → String) (lock_dir : String) where
  unfoldable pub lock_path : String → String
  lock_path resource = lock_dir <> ("/" <> ("dockkeep-resource-" <> (digest resource <> ".lock")))

  unfoldable pub lock_paths : List String → List String
  unfolding lock_path sorted_set
  lock_paths resources = map lock_path (sorted_set resources)

-- The check of `ResourceLockManager.__init__`: every lock file lies in the lock directory.
unfoldable pub paths_inside : (String → String) → String → List String → Bool
paths_inside resolve lock_dir [] = true
paths_inside resolve lock_dir (p ∷ ps) =
    parent (resolve p) == resolve lock_dir && paths_inside resolve lock_dir ps

unfoldable pub release_all : List String → M (Unit {0})
unfolding release_file
release_all [] = pure tt
release_all (p ∷ ps) = release_file p >> release_all ps

module _ (o : Outside) where
  -- The loop of `ResourceLockManager.acquire`; the locks taken so far, the last one first, are
  -- released when one is blocked or raises.
  abbrev pub next_lock : List String → String → M (Unit {0}) → Outcome Bool → M (Unit {0})
  next_lock acquired p rest (ok true) = rest
  next_lock acquired p rest (ok false) = release_all acquired >> raise (job_running p)
  next_lock acquired p rest (raised e) = release_all acquired >> raise e

  unfoldable pub acquire_all : List String → List String → M (Unit {0})
  unfolding release_all acquire_file
  acquire_all acquired [] = pure tt
  acquire_all acquired (p ∷ ps) =
      attempt (acquire_file o p) (next_lock acquired p (acquire_all (p ∷ acquired) ps))

  -- `_acquire_with_retry` of core/job_runner.py, by the attempts left after this one.
  abbrev pub again : Option ℕ → Exn → M (Unit {0}) → M (Unit {0})
  again none e next = raise e
  again (some delay) e next = sleep o delay >> next

  abbrev pub after_attempt : Option ℕ → M (Unit {0}) → Outcome (Unit {0}) → M (Unit {0})
  after_attempt delay next (raised (job_running p)) = again delay (job_running p) next
  after_attempt delay next (raised e) = raise e
  after_attempt delay next (ok _) = pure tt

  unfoldable pub acquire_with_retry : ℕ → Option ℕ → List String → M (Unit {0})
  acquire_with_retry zero delay paths = acquire_all [] paths
  acquire_with_retry (suc left) delay paths =
      attempt (acquire_all [] paths) (after_attempt delay (acquire_with_retry left delay paths))
