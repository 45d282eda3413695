-- ===== src/Targets/RoundTrip.antt =====
-- Selectors that are printed and parsed again, and what a parsed selector satisfies
-- (utils/targets.py).
use dockkeep.Prelude.{
  String, ◌≡◌, refl, ap, sym, ◌∙◌, true, false, ◌⊎◌, inl, inr, Option, none, some, List, [], ◌∷◌,
  ◌==◌, eq_iff, not, ◌&&◌, ◌||◌, is_empty, split_on, partition, contains, if◌then◌else◌, join,
  has_char, arith, ◌<>◌, All, Bool-cases, Option-cases, partition-append, char-append,
  is_empty-append, split_on-join, partition-some, join-split_on, split_on-All, cons-append,
  nil-append,
}
use dockkeep.Targets.{
  ParsedTaskSelector, Parsed, parsed, refused, SelectorError, bad_rclone, bad_workflow,
  parse_backup, parse_named, parse_task_selector, parse_kind, parse_parts, parse_split,
  split_at_dot, backup_substeps,
}

-- The kind as it is written: a substep is a `backup` with one more part.
abbrev word : String → String
word kind = if kind == "backup_step" then "backup" else kind

abbrev sub_parts : Option String → List String
sub_parts none = []
sub_parts (some s) = s ∷ []

abbrev task_parts : ParsedTaskSelector → List String
task_parts p = word p.kind ∷ p.name ∷ sub_parts p.substep

-- The printed form of a selector.
unfoldable pub format_selector : ParsedTaskSelector → String
format_selector p = join "." (p.job ∷ task_parts p)

abbrev pub IsKind : String → Option String → Type 0
IsKind kind none = (kind ≡ "backup") ⊎ (kind ≡ "rclone") ⊎ (kind ≡ "workflow")
IsKind kind (some s) = (kind ≡ "backup_step") × (contains backup_substeps s ≡ true)

pub record IsSelector (p : ParsedTaskSelector) : Type 0 where
  pub job_given : is_empty p.job ≡ false
  pub job_plain : has_char "." p.job ≡ false
  pub name_given : is_empty p.name ≡ false
  pub name_plain : has_char "." p.name ≡ false
  pub kind_known : IsKind p.kind p.substep

record Accepts (job : String) (parts : List String) (p : ParsedTaskSelector) : Type 0 where
  same_job : p.job ≡ job
  same_parts : parts ≡ task_parts p
  given : is_empty p.name ≡ false
  known : IsKind p.kind p.substep

abbrev AcceptsIf : String → List String → Parsed → Type 0
AcceptsIf job parts (parsed p) = Accepts job parts p
AcceptsIf job parts (refused e) = Unit

parse_backup-AcceptsIf :
    (job : String) (rest : List String)
    → AcceptsIf job ("backup" ∷ rest) (parse_backup job ("backup" ∷ rest))
unfolding parse_backup
parse_backup-AcceptsIf job [] = tt
parse_backup-AcceptsIf job (name ∷ []) = elim (Bool-cases (is_empty name)) [
  | inl e ↦ rw e tt
  | inr e ↦ rw e (record { same_job = refl; same_parts = refl; given = e; known = inl refl })
]
parse_backup-AcceptsIf job (name ∷ sub ∷ []) =
    elim (Bool-cases (not (is_empty name) && contains backup_substeps sub)) [
      | inl e ↦ rw e (record {
        same_job = refl;
        same_parts = refl;
        given = ground arith;
        known = (refl, ground arith);
      })
      | inr e ↦ rw e tt
    ]
parse_backup-AcceptsIf job (name ∷ sub ∷ more ∷ rest) = tt

parse_named-AcceptsIf :
    (job kind : String) (e : SelectorError) (rest : List String)
    → word kind ≡ kind
    → IsKind kind none
    → AcceptsIf job (kind ∷ rest) (parse_named job kind e (kind ∷ rest))
unfolding parse_named
parse_named-AcceptsIf job kind e [] w k = tt
parse_named-AcceptsIf job kind e (name ∷ []) w k = elim (Bool-cases (is_empty name)) [
  | inl e ↦ rw e tt
  | inr e ↦ rw e (record {
    same_job = refl;
    same_parts = ap (λ x. x ∷ name ∷ []) (sym w);
    given = e;
    known = k;
  })
]
parse_named-AcceptsIf job kind e (name ∷ sub ∷ rest) w k = tt

-- A test for a known word makes the word known.
if_known :
    (word head job : String) (rest : List String) (f : List String → Parsed) (other : Parsed)
    → AcceptsIf job (word ∷ rest) (f (word ∷ rest))
    → AcceptsIf job (head ∷ rest) other
    → AcceptsIf job (head ∷ rest) (if head == word then f (head ∷ rest) else other)
if_known word head job rest f other a b = elim (Bool-cases (head == word)) [
  | inl e ↦ rw (e, (eq_iff head word).0 e) a
  | inr e ↦ rw e b
]

parse_kind-AcceptsIf :
    (job head : String) (rest : List String)
    → AcceptsIf job (head ∷ rest) (parse_kind job head (head ∷ rest))
unfolding parse_kind
parse_kind-AcceptsIf job head rest = elim (Bool-cases (is_empty head)) [
  | inl e ↦ rw e tt
  | inr e ↦ rw e (
      if_known "backup" head job rest (parse_backup job) _ (parse_backup-AcceptsIf job rest) (
        if_known "rclone" head job rest (parse_named job "rclone" bad_rclone) _
          (parse_named-AcceptsIf job "rclone" bad_rclone rest refl (inr (inl refl)))
          (if_known "workflow" head job rest (parse_named job "workflow" bad_workflow) _
            (parse_named-AcceptsIf job "workflow" bad_workflow rest refl (inr (inr refl))) tt)))
]

parse_parts-Accepts :
    (job : String) (parts : List String) (p : ParsedTaskSelector)
    → parse_parts job parts ≡ parsed p
    → Accepts job parts p
parse_parts-Accepts job [] p h = cc
parse_parts-Accepts job (w ∷ ws) p h = rw h at (parse_kind-AcceptsIf job w ws)

join-cons :
    (d w : String) (ws : List String)
    → ((v : String) × (vs : List String) × (ws ≡ v ∷ vs))
    → join d (w ∷ ws) ≡ w <> (d <> join d ws)
unfolding join
join-cons d w [] (v, vs, e) = cc
join-cons d w (v ∷ vs) _ = refl

sound_parts :
    (s job rest : String) (p : ParsedTaskSelector)
    → partition "." s ≡ some (job, rest)
    → is_empty job ≡ false
    → parse_parts job (split_on "." rest) ≡ parsed p
    → IsSelector p × (s ≡ format_selector p)
unfolding format_selector
sound_parts s job rest p e g h =
    let a = parse_parts-Accepts job (split_on "." rest) p h in
    let (whole, plain) = partition-some "." s job rest e in
    let names : All (λ w. has_char "." w ≡ false) (task_parts p) =
      rw a.same_parts at (split_on-All "." rest) in
    (
      record {
        job_given = rw a.same_job g;
        job_plain = rw a.same_job plain;
        name_given = a.given;
        name_plain = names.1.0;
        kind_known = a.known;
      },
      rw
          (
            join-cons "." p.job (task_parts p) (word p.kind, p.name ∷ sub_parts p.substep, refl),
            a.same_job,
            ← a.same_parts,
            join-split_on,
            cons-append,
            nil-append,
          )
          whole,
    )

-- A parsed selector is well formed, and the text is its printed form.
pub parse_task_selector_sound :
    (s : String) (p : ParsedTaskSelector)
    → parse_task_selector s ≡ parsed p
    → IsSelector p × (s ≡ format_selector p)
unfolding parse_task_selector
parse_task_selector_sound s p h = elim (Option-cases (partition "." s)) [
  | inl e ↦ cc
  | inr ((job, rest), e) ↦ elim (Bool-cases (is_empty job || is_empty rest)) [
    | inl b ↦ cc
    | inr b ↦ sound_parts s job rest p e (ground arith) (
        sym (
          ap (λ x. parse_split (split_at_dot x)) e
          ∙ ap (λ x. parse_split (if x then none else some (job, rest))) b)
        ∙ h)
  ]
]

kind_parts :
    (job name kind : String) (sub : Option String)
    → is_empty name ≡ false
    → IsKind kind sub
    → parse_kind job (word kind) (word kind ∷ name ∷ sub_parts sub)
      ≡ parsed (record { job = job; kind = kind; name = name; substep = sub })
unfolding parse_kind
kind_parts job name kind none g (inl e) = rw (e, g)
kind_parts job name kind none g (inr (inl e)) = rw (e, g)
kind_parts job name kind none g (inr (inr e)) = rw (e, g)
kind_parts job name kind (some s) g (e, k) = rw (e, g, k)

word_plain :
    (kind : String) (sub : Option String) → IsKind kind sub → has_char "." (word kind) ≡ false
unfolding has_char
word_plain kind none (inl e) = rw e
word_plain kind none (inr (inl e)) = rw e
word_plain kind none (inr (inr e)) = rw e
word_plain kind (some s) (e, k) = rw e

word_given : (kind : String) (sub : Option String) → IsKind kind sub → is_empty (word kind) ≡ false
word_given kind none (inl e) = rw e
word_given kind none (inr (inl e)) = rw e
word_given kind none (inr (inr e)) = rw e
word_given kind (some s) (e, k) = rw e

sub_plain : (s : String) → contains backup_substeps s ≡ true → has_char "." s ≡ false
unfolding has_char contains backup_substeps
sub_plain s h = elim (Bool-cases ("backup" == s)) [
  | inl e ↦ rw (sym ((eq_iff "backup" s).0 e))
  | inr e ↦ elim (Bool-cases ("retention" == s)) [
    | inl f ↦ rw (sym ((eq_iff "retention" s).0 f))
    | inr f ↦ elim (Bool-cases ("cleanup" == s)) [
      | inl g ↦ rw (sym ((eq_iff "cleanup" s).0 g))
      | inr g ↦ ground arith
    ]
  ]
]

sub_parts_plain :
    (kind : String) (sub : Option String)
    → IsKind kind sub
    → All (λ w. has_char "." w ≡ false) (sub_parts sub)
sub_parts_plain kind none k = tt
sub_parts_plain kind (some s) k = (sub_plain s k.1, tt)

-- Printing a well formed selector and parsing it gives it back.
pub parse-format_selector :
    (p : ParsedTaskSelector) → IsSelector p → parse_task_selector (format_selector p) ≡ parsed p
unfolding parse_task_selector format_selector
parse-format_selector p v =
    rw
      (
        join-cons "." p.job (task_parts p) (word p.kind, p.name ∷ sub_parts p.substep, refl),
        char-append "." (join "." (task_parts p)),
        partition-append "." p.job (join "." (task_parts p)) v.job_plain,
        v.job_given,
      )
      (rw
        (
          join-cons "." (word p.kind) (p.name ∷ sub_parts p.substep)
              (p.name, sub_parts p.substep, refl),
          is_empty-append (word p.kind) _ (word_given p.kind p.substep v.kind_known),
        )
        (rw
          (← join-cons "." (word p.kind) (p.name ∷ sub_parts p.substep)
            (p.name, sub_parts p.substep, refl))
          (rw
            (split_on-join "." (word p.kind) (p.name ∷ sub_parts p.substep) (
              word_plain p.kind p.substep v.kind_known,
              (v.name_plain, sub_parts_plain p.kind p.substep v.kind_known),
            ))
            (kind_parts p.job p.name p.kind p.substep v.name_given v.kind_known))))
