-- ===== src/Manager/Life.antt =====
-- What holds between the fields of a run, by where its task and its finisher stand
-- (services/run_manager.py).
use dockkeep.Prelude.{
  String, ◌≡◌, refl, sym, ap, ◌∙◌, subst, Bool, true, false, ◌⊎◌, inl, inr, Option, none, some,
  List, [], ◌∷◌, if◌then◌else◌, Bool-cases,
}
use dockkeep.Manager.{
  RunOrigin, manual, scheduler, RunStatus, is_active, Ending, returned, was_cancelled, crashed,
  Phase, waiting, starting, operating, closing, ended, Finisher, no_task, pending, at_hook, over,
  Run, new_run, drop_completed_record, complete, Result, result, cancellation, already_running,
  config_failure, unexpected, other, status_of, error_of, ending_of,
}
use dockkeep.Manager.Steps.{Hooks, finish, begin, end_operation, set_phase, on_task_done, follow_up}

terminal-conflict :
    (origin : RunOrigin) (e : String) → is_active (status_of origin (already_running e)) ≡ false
terminal-conflict manual e = refl
terminal-conflict scheduler e = refl

module _ (h : Hooks) where
  -- The calls of the terminal hook that a status stands for.
  abbrev pub told_of : RunStatus → List RunStatus
  told_of status = if is_active status then [] else if h.on_terminal then status ∷ [] else []

  abbrev pub Alone : Run → Type 0
  Alone r = (r.finisher ≡ no_task) × (r.in_finish_tasks ≡ false)

  abbrev pub Finishing : Finisher → Run → Type 0
  Finishing no_task r = ⊥
  Finishing (pending status error) r = (is_active status ≡ false) × (r.in_finish_tasks ≡ true)
  Finishing at_hook r = (is_active r.status ≡ false) × (r.in_finish_tasks ≡ true)
  Finishing over r = is_active r.status ≡ false

  abbrev pub Busy : Run → Type 0
  Busy r = (is_active r.status ≡ true) × (r.in_tasks ≡ true) × Alone r

  abbrev pub Unfinished : Run → Type 0
  Unfinished r = ((r.in_tasks ≡ true) × Alone r) ⊎ ((r.in_tasks ≡ false) × Finishing r.finisher r)

  abbrev pub Fits : Phase → Run → Type 0
  Fits waiting r = Busy r
  Fits starting r = Busy r
  Fits operating r = Busy r
  Fits (closing e) r = (is_active r.status ≡ false) × (r.in_tasks ≡ true) × Alone r
  Fits (ended returned) r = (is_active r.status ≡ false) × Alone r
  Fits (ended was_cancelled) r = Unfinished r
  Fits (ended crashed) r = Unfinished r

  pub record IsConsistent (r : Run) : Type 0 where
    pub place : Fits r.phase r
    pub told : r.notified ≡ told_of r.status

  -- Two runs that differ at most in `in_runs`, `in_events` and the requests to cancel.
  pub record Same (r s : Run) : Type 0 where
    pub status : s.status ≡ r.status
    pub phase : s.phase ≡ r.phase
    pub finisher : s.finisher ≡ r.finisher
    pub in_tasks : s.in_tasks ≡ r.in_tasks
    pub in_finish_tasks : s.in_finish_tasks ≡ r.in_finish_tasks
    pub notified : s.notified ≡ r.notified

  pub Same-if : (b : Bool) (r s t : Run) → Same r s → Same r t → Same r (if b then s else t)
  Same-if true r s t hs ht = hs
  Same-if false r s t hs ht = ht

  pub Same-refl : (r : Run) → Same r r
  Same-refl r = record {
    status = refl;
    phase = refl;
    finisher = refl;
    in_tasks = refl;
    in_finish_tasks = refl;
    notified = refl;
  }

  pub drop_completed_record-Same : (r : Run) → Same r (drop_completed_record r)
  unfolding drop_completed_record
  drop_completed_record-Same r = Same-if _ r _ _ (Same-refl r) (record {
    status = refl;
    phase = refl;
    finisher = refl;
    in_tasks = refl;
    in_finish_tasks = refl;
    notified = refl;
  })

  pub complete-Same : (r : Run) → Same r (complete r)
  unfolding complete
  complete-Same r =
      let s = drop_completed_record-Same (record r { in_events = false }) in
      record {
        status = s.status;
        phase = s.phase;
        finisher = s.finisher;
        in_tasks = s.in_tasks;
        in_finish_tasks = s.in_finish_tasks;
        notified = s.notified;
      }

  pub Finishing-Same : (r s : Run) (f : Finisher) → Same r s → Finishing f r → Finishing f s
  Finishing-Same r s no_task m x = x
  Finishing-Same r s (pending status error) m x = (x.0, m.in_finish_tasks ∙ x.1)
  Finishing-Same r s at_hook m x = (ap is_active m.status ∙ x.0, m.in_finish_tasks ∙ x.1)
  Finishing-Same r s over m x = ap is_active m.status ∙ x

  Alone-Same : (r s : Run) → Same r s → Alone r → Alone s
  Alone-Same r s m (a, b) = (m.finisher ∙ a, m.in_finish_tasks ∙ b)

  Busy-Same : (r s : Run) → Same r s → Busy r → Busy s
  Busy-Same r s m (a, b, c) = (ap is_active m.status ∙ a, m.in_tasks ∙ b, Alone-Same r s m c)

  Unfinished-Same : (r s : Run) → Same r s → Unfinished r → Unfinished s
  Unfinished-Same r s m (inl (a, b)) = inl (m.in_tasks ∙ a, Alone-Same r s m b)
  Unfinished-Same r s m (inr (a, b)) = inr (
    m.in_tasks ∙ a,
    subst (λ f. Finishing f s) (sym m.finisher) (Finishing-Same r s r.finisher m b),
  )

  Fits-Same : (p : Phase) (r s : Run) → Same r s → Fits p r → Fits p s
  Fits-Same waiting r s m x = Busy-Same r s m x
  Fits-Same starting r s m x = Busy-Same r s m x
  Fits-Same operating r s m x = Busy-Same r s m x
  Fits-Same (closing e) r s m (a, b, c) =
      (ap is_active m.status ∙ a, m.in_tasks ∙ b, Alone-Same r s m c)
  Fits-Same (ended returned) r s m (a, b) = (ap is_active m.status ∙ a, Alone-Same r s m b)
  Fits-Same (ended was_cancelled) r s m x = Unfinished-Same r s m x
  Fits-Same (ended crashed) r s m x = Unfinished-Same r s m x

  pub IsConsistent-Same : (r s : Run) → Same r s → IsConsistent r → IsConsistent s
  IsConsistent-Same r s m c = record {
    place = subst (λ p. Fits p s) (sym m.phase) (Fits-Same r.phase r s m c.place);
    told = m.notified ∙ c.told ∙ ap told_of (sym m.status);
  }

  pub new_run-IsConsistent : IsConsistent new_run
  unfolding new_run
  new_run-IsConsistent = record { place = (refl, refl, (refl, refl)); told = refl }

  -- After the first part of `_finish`: the status is terminal and told, and the rest is as before.
  pub record Noted (r s : Run) : Type 0 where
    pub terminal : is_active s.status ≡ false
    pub told : s.notified ≡ told_of s.status
    pub in_tasks : s.in_tasks ≡ r.in_tasks
    pub in_finish_tasks : s.in_finish_tasks ≡ r.in_finish_tasks
    pub finisher : s.finisher ≡ r.finisher
    pub phase : s.phase ≡ r.phase

  module _ (origin : RunOrigin) where
    Noted-Same : (r s t : Run) → Noted r s → Same s t → Noted r t
    Noted-Same r s t n m = record {
      terminal = ap is_active m.status ∙ n.terminal;
      told = m.notified ∙ n.told ∙ ap told_of (sym m.status);
      in_tasks = m.in_tasks ∙ n.in_tasks;
      in_finish_tasks = m.in_finish_tasks ∙ n.in_finish_tasks;
      finisher = m.finisher ∙ n.finisher;
      phase = m.phase ∙ n.phase;
    }

    told-active : (status : RunStatus) → is_active status ≡ true → told_of status ≡ []
    told-active status a = rw a refl

    told-terminal :
        (status : RunStatus) (b : Bool)
        → is_active status ≡ false
        → h.on_terminal ≡ b
        → told_of status ≡ (if b then status ∷ [] else [])
    told-terminal status b t e = rw (t, e) refl

    pub finish-Noted :
        (Q : Run → Type 0) (wait done : Run → Run) (status : RunStatus) (error : Option String)
        (r : Run)
        → is_active status ≡ false
        → r.notified ≡ told_of r.status
        → ((s : Run) → Noted r s → Q (wait s))
        → ((s : Run) → Noted r s → Q (done s))
        → Q (finish h origin wait done status error r)
    unfolding finish
    finish-Noted Q wait done status error r t told hw hd = elim (Bool-cases (is_active r.status)) [
      | inl a ↦ elim (Bool-cases h.on_terminal) [
        | inl b ↦
            let s : Run = record r {
              status = status;
              error = error;
              notified = status ∷ r.notified;
            } in
            rw (a, b)
              (hw s (record {
                terminal = t;
                told =
                    ap (◌∷◌ status) (told ∙ told-active r.status a)
                    ∙ sym (told-terminal status true t b);
                in_tasks = refl;
                in_finish_tasks = refl;
                finisher = refl;
                phase = refl;
              }))
        | inr b ↦
            let s : Run = record r { status = status; error = error } in
            rw (a, b)
              (hd (complete s) (
                Noted-Same r s (complete s)
                  (record {
                    terminal = t;
                    told = told ∙ told-active r.status a ∙ sym (told-terminal status false t b);
                    in_tasks = refl;
                    in_finish_tasks = refl;
                    finisher = refl;
                    phase = refl;
                  })
                  (complete-Same s)))
      ]
      | inr n ↦ rw n (
          hd (complete r) (
            Noted-Same r r (complete r)
              (record {
                terminal = n;
                told = told;
                in_tasks = refl;
                in_finish_tasks = refl;
                finisher = refl;
                phase = refl;
              })
              (complete-Same r)))
    ]

    terminal-status_of : (x : Result) → is_active (status_of origin x) ≡ false
    terminal-status_of (result true) = refl
    terminal-status_of (result false) = refl
    terminal-status_of cancellation = refl
    terminal-status_of (already_running e) = terminal-conflict origin e
    terminal-status_of (config_failure e) = refl
    terminal-status_of (unexpected e) = refl
    terminal-status_of (other e) = refl

    -- What a step of the code leaves.
    abbrev pub Then : Option Run → Type 0
    Then none = Unit
    Then (some r) = IsConsistent r

    closed-Fits :
        (e : Ending) (r s : Run)
        → Busy r
        → Noted r s
        → IsConsistent (set_phase h origin (closing e) s)
    closed-Fits e r s (a, b, (c, d)) n = record {
      place = (n.terminal, n.in_tasks ∙ b, (n.finisher ∙ c, n.in_finish_tasks ∙ d));
      told = n.told;
    }

    pub ended-Fits :
        (e : Ending) (s : Run)
        → is_active s.status ≡ false
        → s.in_tasks ≡ true
        → Alone s
        → s.notified ≡ told_of s.status
        → IsConsistent (set_phase h origin (ended e) s)
    ended-Fits returned s a b c t = record { place = (a, c); told = t }
    ended-Fits was_cancelled s a b c t = record { place = inl (b, c); told = t }
    ended-Fits crashed s a b c t = record { place = inl (b, c); told = t }

    pub end_operation-IsConsistent :
        (x : Result) (r : Run)
        → Busy r
        → r.notified ≡ told_of r.status
        → IsConsistent (end_operation h origin x r)
    unfolding end_operation
    end_operation-IsConsistent x r (a, b, (c, d)) told =
        finish-Noted IsConsistent _ _ _ (error_of x) r (terminal-status_of x) told
          (λ s n. closed-Fits (ending_of x) r s (a, b, (c, d)) n)
          (λ s n.
            ended-Fits (ending_of x) s n.terminal (n.in_tasks ∙ b)
              (n.finisher ∙ c, n.in_finish_tasks ∙ d) n.told)

    pub begin-IsConsistent :
        (r : Run) → Busy r → r.notified ≡ told_of r.status → IsConsistent (begin h origin r)
    unfolding begin
    begin-IsConsistent r (a, b, c) told = elim (Bool-cases r.cancel_requested) [
      | inl e ↦ rw e (record { place = inl (b, c); told = told })
      | inr e ↦ elim (Bool-cases h.on_started) [
        | inl f ↦ rw (e, f) (record { place = (refl, b, c); told = told ∙ told-active r.status a })
        | inr f ↦ rw (e, f) (record { place = (refl, b, c); told = told ∙ told-active r.status a })
      ]
    ]

    followed :
        (e : Ending) (r : Run)
        → r.phase ≡ ended e
        → Fits (ended e) r
        → r.notified ≡ told_of r.status
        → IsConsistent
            (record (follow_up h origin e r) { in_tasks = false; cancel_requested = false })
    followed returned r p x told =
        let s : Run = record r { in_tasks = false; cancel_requested = false } in
        record { place = subst (λ q. Fits q s) (sym p) x; told = told }
    followed was_cancelled r p x told =
        let s : Run = record (follow_up h origin was_cancelled r) {
          in_tasks = false;
          cancel_requested = false;
        } in
        record { place = subst (λ q. Fits q s) (sym p) (inr (refl, (refl, refl))); told = told }
    followed crashed r p x told =
        let s : Run = record (follow_up h origin crashed r) {
          in_tasks = false;
          cancel_requested = false;
        } in
        record { place = subst (λ q. Fits q s) (sym p) (inr (refl, (refl, refl))); told = told }

    pub on_task_done-IsConsistent :
        (e : Ending) (r : Run)
        → r.phase ≡ ended e
        → r.in_tasks ≡ true
        → Fits (ended e) r
        → r.notified ≡ told_of r.status
        → IsConsistent (on_task_done h origin e r)
    unfolding on_task_done
    on_task_done-IsConsistent e r p b x told =
        let s : Run = record (follow_up h origin e r) {
          in_tasks = false;
          cancel_requested = false;
        } in
        IsConsistent-Same s (drop_completed_record s) (drop_completed_record-Same s)
          (followed e r p x told)

    -- A finisher stands only behind a task that was cancelled or has crashed, and is gone.
    abbrev pub Lost : Phase → Type 0
    Lost (ended was_cancelled) = Unit
    Lost (ended crashed) = Unit
    Lost _ = ⊥

    pub finishing :
        (p : Phase) (r : Run)
        → Fits p r
        → (r.finisher ≡ no_task) ⊎ (Lost p × (r.in_tasks ≡ false) × Finishing r.finisher r)
    finishing waiting r (a, b, (c, d)) = inl c
    finishing starting r (a, b, (c, d)) = inl c
    finishing operating r (a, b, (c, d)) = inl c
    finishing (closing e) r (a, b, (c, d)) = inl c
    finishing (ended returned) r (a, (c, d)) = inl c
    finishing (ended was_cancelled) r (inl (b, (c, d))) = inl c
    finishing (ended was_cancelled) r (inr (b, x)) = inr (tt, b, x)
    finishing (ended crashed) r (inl (b, (c, d))) = inl c
    finishing (ended crashed) r (inr (b, x)) = inr (tt, b, x)

    pub lost-Fits :
        (p : Phase) (s : Run) → Lost p → s.in_tasks ≡ false → Finishing s.finisher s → Fits p s
    lost-Fits (ended was_cancelled) s l b x = inr (b, x)
    lost-Fits (ended crashed) s l b x = inr (b, x)
    lost-Fits (ended returned) s l b x = absurd l
    lost-Fits (closing e) s l b x = absurd l
    lost-Fits waiting s l b x = absurd l
    lost-Fits starting s l b x = absurd l
    lost-Fits operating s l b x = absurd l
