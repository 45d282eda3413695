-- ===== src/Executors/Confined.antt =====
-- What a hook can start (executors/hooks.py).
use dockkeep.Prelude.{
  ℕ, String, ◌≡◌, refl, Bool, true, false, ◌⊎◌, inl, inr, Option, none, some, List, [], ◌∷◌,
  if◌then◌else◌, if-holds, is_empty, strip, not, ◌&&◌, Bool-cases,
}
use dockkeep.Shlex.{shlex_split}
use dockkeep.Effects.{
  Outside, Process, Trace, Outcome, ok, raised, World, M, started, pure, look, continue, attempt,
  start_process, ◌>>=◌,
}
use dockkeep.Executors.Frame.{settle-Keeps}
use dockkeep.Executors.Hooks.{
  Resolved, script_error, inline, script, validate_script_path, checked, resolve_tokens,
  resolve_script_command, is_absolute, inline_allowed, run_args, run_resolved, run_single, run,
  run_executor,
}

module _ (o : Outside) (scripts_dir resolved_dir : String) where
  -- A script that is an executable file inside the scripts directory.
  abbrev pub IsScript : Trace → List String → Type 0
  IsScript t argv =
      (path : String) × (args : List String) × (argv ≡ path ∷ args)
      × (validate_script_path o scripts_dir resolved_dir t path ≡ true)

  abbrev pub IsInline : List String → Type 0
  IsInline argv =
      (cmd : String) × (argv ≡ "/bin/sh" ∷ "-c" ∷ cmd ∷ [])
      × (inline_allowed o scripts_dir resolved_dir ≡ true)

  -- A hook that is started after what has happened.
  pub record IsHook (t : Trace) (p : Process) : Type 0 where
    pub where_from : IsScript t p.argv ⊎ IsInline p.argv
    pub in_scripts_dir : p.cwd ≡ some scripts_dir

  -- What has happened behind `t₀` is starts of hooks only.
  pub data Hooked (t₀ : Trace) : Trace → Type 0 where
    nothing : Hooked t₀ t₀
    hook :
        {t : Trace} (p : Process) (held : List String)
        → Hooked t₀ t
        → IsHook t p
        → Hooked t₀ (started p held ∷ t)

  abbrev Allowed : Trace → Resolved → Type 0
  Allowed t (script argv) = IsScript t argv
  Allowed t _ = Unit

  checked-Allowed :
      (t : Trace) (path : String) (args : List String)
      → Allowed t (checked o scripts_dir resolved_dir t path args)
  checked-Allowed t path args =
      elim (Bool-cases (validate_script_path o scripts_dir resolved_dir t path)) [
        | inl e ↦ rw e (path, args, refl, e)
        | inr e ↦ rw e tt
      ]

  resolve_tokens-Allowed :
      (t : Trace) (tokens : Option (List String))
      → Allowed t (resolve_tokens o scripts_dir resolved_dir t tokens)
  resolve_tokens-Allowed t none = tt
  resolve_tokens-Allowed t (some []) = tt
  resolve_tokens-Allowed t (some (head ∷ args)) =
      if-holds (Allowed t) (is_absolute (o.expanduser head)) _ _ (checked-Allowed t _ args) tt

  resolve-Allowed :
      (t : Trace) (cmd : String)
      → Allowed t (resolve_script_command o scripts_dir resolved_dir t cmd)
  unfolding resolve_script_command
  resolve-Allowed t cmd = if-holds (Allowed t) (is_empty (strip cmd)) _ _ tt (
      if-holds (Allowed t) _ _ _ (checked-Allowed t _ [])
        (resolve_tokens-Allowed t (shlex_split (strip cmd))))

  module _ (t₀ : Trace) where
    abbrev Hooks : World → Type 0
    Hooks w = Hooked t₀ w.trace

    run_args-Hooked :
        (args : List String) (timeout : Option ℕ) (w : World)
        → IsScript w.trace args ⊎ IsInline args
        → Hooks w
        → Hooks (run_args o scripts_dir resolved_dir args timeout w).1
    unfolding run_args look ◌>>=◌ attempt pure start_process
    run_args-Hooked args timeout w h k =
        let p : Process = record {
          argv = args;
          env = none;
          cwd = some scripts_dir;
          timeout = timeout;
        } in
        let facts = o.path_facts w.trace resolved_dir in
        if-holds (λ (m : M Bool). Hooks (m w).1) (facts.exists && facts.is_dir) _ _
          ((settle-Keeps {P = Hooks} (o.process w.trace p).ending).at _
            (hook p w.held k (record { where_from = h; in_scripts_dir = refl })))
          k

    run_inline-Hooked :
        (allowed full : Bool) (cmd : String) (timeout : Option ℕ) (w : World)
        → inline_allowed o scripts_dir resolved_dir ≡ allowed
        → Hooks w
        → Hooks
            ((if allowed && full
                then run_args o scripts_dir resolved_dir ("/bin/sh" ∷ "-c" ∷ cmd ∷ []) timeout
                else pure false)
              w).1
    unfolding pure
    run_inline-Hooked true true cmd timeout w e k =
        run_args-Hooked _ timeout w (inr (cmd, refl, e)) k
    run_inline-Hooked true false cmd timeout w e k = k
    run_inline-Hooked false full cmd timeout w e k = k

    run_resolved-Hooked :
        (cmd : String) (timeout : Option ℕ) (r : Resolved) (w : World)
        → Allowed w.trace r
        → Hooks w
        → Hooks (run_resolved o scripts_dir resolved_dir cmd timeout r w).1
    unfolding pure
    run_resolved-Hooked cmd timeout script_error w h k = k
    run_resolved-Hooked cmd timeout inline w h k =
        run_inline-Hooked (inline_allowed o scripts_dir resolved_dir) (not (is_empty (strip cmd)))
          cmd timeout w refl k
    run_resolved-Hooked cmd timeout (script argv) w h k = run_args-Hooked argv timeout w (inl h) k

    after_hook :
        (timeout : Option ℕ) (hooks : List String) (r : Outcome Bool) (w : World)
        → ((v : World) → Hooks v → Hooks (run o scripts_dir resolved_dir timeout hooks v).1)
        → Hooks w
        → Hooks
            (continue
              (λ success.
                if success then run o scripts_dir resolved_dir timeout hooks else pure false)
              r
              w).1
    unfolding pure
    after_hook timeout hooks (ok true) w next k = next w k
    after_hook timeout hooks (ok false) w next k = k
    after_hook timeout hooks (raised e) w next k = k

    run-Hooked :
        (timeout : Option ℕ) (hooks : List String) (w : World)
        → Hooks w
        → Hooks (run o scripts_dir resolved_dir timeout hooks w).1
    unfolding run run_single look pure ◌>>=◌ attempt
    run-Hooked timeout [] w k = k
    run-Hooked timeout (cmd ∷ hooks) w k =
        let found = resolve_script_command o scripts_dir resolved_dir w.trace cmd in
        let (r, v) = run_resolved o scripts_dir resolved_dir cmd timeout found w in
        after_hook timeout hooks r v (run-Hooked timeout hooks)
          (run_resolved-Hooked cmd timeout found w (resolve-Allowed w.trace cmd) k)

-- Whatever the hooks say, they only start processes in the scripts directory, and each is a file that
-- is executable and inside this directory, as it was resolved at first, at the moment when it is
-- started, or, only if inline hooks are allowed, a shell.
pub run_executor-Hooked :
    (o : Outside) (scripts_dir : String) (timeout : Option ℕ) (hooks : List String) (w : World)
    → Hooked o scripts_dir
        (o.resolve w.trace scripts_dir)
        w.trace
        (run_executor o scripts_dir timeout hooks w).1.trace
unfolding run_executor look ◌>>=◌ attempt
run_executor-Hooked o scripts_dir timeout hooks w =
    run-Hooked o scripts_dir (o.resolve w.trace scripts_dir) w.trace timeout hooks w nothing
