-- ===== src/Executors/Guard.antt =====
-- The guard of an rclone sync that deletes at its target (executors/rclone.py).
use dockkeep.Prelude.{
  ℕ, String, ◌≡◌, refl, Bool, true, false, Option, none, some, [], ◌∷◌, if◌then◌else◌,
}
use dockkeep.Config.{RcloneTaskConfig}
use dockkeep.Effects.{Outside, Process, Trace, World, ok, M, pure, look, ◌>>=◌}
use dockkeep.Effects.Keeps.{Keeps, Keeps-pure, Keeps-bind, Keeps-if}
use dockkeep.Effects.Frame.{Closed}
use dockkeep.Effects.Since.{Since, Since-refl, Frame-Closed}
use dockkeep.Effects.Fails.{Fails, Never, Never-bind, Never-if, Never-pure}
use dockkeep.Executors.Rclone.{
  safe_state, source_is_safe_for_sync, guard_sync, check_named, check_remote, parse_remote_name,
  list_remotes, execute_rclone,
}
use dockkeep.Executors.Frame.{listed-Keeps}

abbrev IsListing : Process → Type 0
IsListing p = p.argv ≡ "rclone" ∷ "listremotes" ∷ []

module _ (o : Outside) {P : World → Type 0} (c : Closed o IsListing P) where
  check_named-Keeps :
      (name : Option String) (timeout : Option ℕ) → Keeps P (check_named o name timeout)
  unfolding list_remotes
  check_named-Keeps none timeout = Keeps-pure false
  check_named-Keeps (some name) timeout =
      Keeps-bind _ _
        (Keeps-bind _ _ (c.start _ refl) (λ result. listed-Keeps result.lines result.ending))
        (λ configured. Keeps-pure _)

module _ (o : Outside) (config : RcloneTaskConfig)
    (unsafe : (t : Trace) → safe_state (o.source_dir t config.source) ≡ false) where
  guard_sync-stops :
      (next : M Bool) (w : World)
      → (guard_sync o (some true) config.source >>= λ safe. if safe then next else pure false) w
        ≡ (ok false, w)
  unfolding source_is_safe_for_sync look ◌>>=◌ pure
  guard_sync-stops next w = rw (unsafe w.trace) refl

  stops-Keeps :
      {P : World → Type 0} (delete : Option Bool) (next : M Bool)
      → delete ≡ some true
      → Keeps P (guard_sync o delete config.source >>= λ safe. if safe then next else pure false)
  stops-Keeps delete next e = rw e (record { at = λ w h. rw (guard_sync-stops next w) h })

  stops-Never :
      (delete : Option Bool) (next : M Bool)
      → delete ≡ some true
      → Never (guard_sync o delete config.source >>= λ safe. if safe then next else pure false)
  stops-Never delete next e = rw e (record { at = λ w. rw (guard_sync-stops next w) refl })

  -- If the source of a deleting sync is missing, unreadable or has no entries whenever it is looked
  -- at, the task starts nothing but `rclone listremotes`, and does not succeed.
  pub execute_rclone-guard_sync :
      (dry_run : Bool) (timeout : Option ℕ) (w : World)
      → config.sync_delete ≡ some true
      → Since
          (λ p held. p.argv ≡ "rclone" ∷ "listremotes" ∷ [])
          w.trace
          (execute_rclone o dry_run timeout config w).1.trace
        × Fails (execute_rclone o dry_run timeout config w).0
  unfolding execute_rclone check_remote
  execute_rclone-guard_sync dry_run timeout w e =
      let c = Frame-Closed {R = λ p held. IsListing p} {t₀ = w.trace} o w.held in
      (
        ((Keeps-bind _ _ (check_named-Keeps o c (parse_remote_name config.target) timeout) (λ known.
              Keeps-if known _ _ (stops-Keeps config.sync_delete _ e) (Keeps-pure false))).at
            w (record { holds = refl; since = Since-refl })).since,
        (Never-bind _ _
              (λ known. Never-if known _ _ (stops-Never config.sync_delete _ e) Never-pure)).at
            w,
      )
