-- ===== src/Locking/Identity.antt =====
-- Which places are one resource: a restic repository on an rclone remote and the rclone endpoint
-- that it stands on, and local paths.
use dockkeep.Prelude.{
  String, ◌≡◌, ◌≢◌, refl, sym, ap, ◌∙◌, false, none, some, ◌<>◌, is_empty, has_char, partition,
  strip_prefix, Option-cases, inl, inr, partition-append, char-append, strip_prefix-append,
  strip_prefix-some, append_append,
}
use mathlib.Core.Option.{some-injective}
use dockkeep.Locking.{
  canonical_resource_id, resource_for_repository, resource_for_rclone_endpoint,
  split_rclone_endpoint,
}

colon_part :
    (remote path : String)
    → has_char ":" remote ≡ false
    → partition ":" (remote <> (":" <> path)) ≡ some (remote, path)
colon_part remote path h = rw char-append (partition-append ":" remote path h)

rclone_colon : (r : String) → "rclone:" <> r ≡ "rclone" <> (":" <> r)
rclone_colon r = append_append "rclone" ":" r

-- Only a remote with the name `rclone` starts like a restic backend.
no_backend :
    (remote path : String)
    → has_char ":" remote ≡ false
    → remote ≢ "rclone"
    → strip_prefix "rclone:" (remote <> (":" <> path)) ≡ none
unfolding has_char
no_backend remote path h other =
    elim (Option-cases (strip_prefix "rclone:" (remote <> (":" <> path)))) [
      | inl e ↦ e
      | inr (r, e) ↦ absurd (other (clash r (strip_prefix-some "rclone:" _ r e)))
    ]
  where
    clash : (r : String) → remote <> (":" <> path) ≡ "rclone:" <> r → remote ≡ "rclone"
    clash r e =
        ap (λ q. q.0)
          (some-injective _ _ (
            sym (colon_part remote path h)
            ∙ ap (partition ":") (e ∙ rclone_colon r)
            ∙ colon_part "rclone" r refl))

-- The repository `rclone:<remote>:<path>` and the endpoint `<remote>:<path>` are one resource, so a
-- backup and a sync of the same place exclude each other; the remote is a name without a slash or a
-- colon, and is not `rclone`.
pub endpoint-eq-repository :
    (resolve : String → String) (remote path : String)
    → is_empty remote ≡ false
    → has_char ":" remote ≡ false
    → has_char "/" remote ≡ false
    → remote ≢ "rclone"
    → resource_for_rclone_endpoint resolve (remote <> (":" <> path))
      ≡ resource_for_repository resolve ("rclone:" <> (remote <> (":" <> path)))
unfolding resource_for_repository resource_for_rclone_endpoint canonical_resource_id
    split_rclone_endpoint
endpoint-eq-repository resolve remote path given h slash other =
    rw (no_backend remote path h other, strip_prefix-append, colon_part remote path h, given, slash)
