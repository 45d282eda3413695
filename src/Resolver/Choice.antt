-- ===== src/Resolver/Choice.antt =====
-- The choice of a password: it is inherited as a whole (`_resolve_password_choice`).
use dockkeep.Prelude.{
  ◌≡◌, sym, ap, ap₂, ◌∙◌, String, Bool, true, false, if◌then◌else◌, Bool-cases, inl, inr, [], ◌∷◌,
}
use dockkeep.Prelude.Dict.{Dict, lookup, insert}
use dockkeep.Config.{Credentials}
use dockkeep.Resolver.Fields.{
  config_fields, fields_for_level, backup, job_backup, job, global_backup,
}
use dockkeep.Resolver.Levels.{
  Attributes, is_set, resolve_field, resolve_fields, settle, any_set, resolve_level, raw_values,
  parent_raw_values, flatten,
}
use dockkeep.Resolver.Assemble.{
  RawApp, RawJob, RawBackup, as_text, from_environ, assemble_credentials, job_level,
  job_backup_level, backup_level,
}

-- Whether a level has a password, its variable or its file.
abbrev pub sets_password : Attributes → Bool
sets_password a =
    if is_set (a "password")
    then true
    else if is_set (a "password_env")
    then true
    else if is_set (a "password_file")
    then true
    else false

-- The nearest level that has one.
abbrev pub choice : Attributes → Attributes → Attributes → Attributes
choice task above top =
    if sets_password task then task else if sets_password above then above else top

abbrev pub credentials_of : Dict String → Attributes → Credentials
credentials_of environ a = record {
  password = from_environ environ (as_text (a "password")) (as_text (a "password_env"));
  password_env = as_text (a "password_env");
  password_file = as_text (a "password_file");
}

module _ (environ : Dict String) (g : RawApp) (j : RawJob) (b : RawBackup) where
  abbrev settled : Bool → Bool → Credentials
  unfolding assemble_credentials settle raw_values parent_raw_values flatten job_level
  settled task job_sets = assemble_credentials environ (
      settle backup (raw_values b.attributes backup)
        ((job, flatten (job_level g j))
          ∷ (
            job_backup,
            flatten (
                settle job_backup (raw_values j.backup_attributes job_backup)
                  ((global_backup, parent_raw_values g.backup_attributes job_backup global_backup)
                    ∷ [])
                  job_sets),
          )
          ∷ [])
        task)

  -- The credentials of a backup are those of the nearest of the backup, its job and the global level
  -- that sets any of the three fields; they are never mixed from two levels.
  pub backup_level-choice :
      assemble_credentials environ (backup_level g j b)
      ≡ credentials_of environ (choice b.attributes j.backup_attributes g.backup_attributes)
  unfolding assemble_credentials backup_level job_level job_backup_level resolve_level settle
      resolve_fields resolve_field raw_values parent_raw_values flatten fields_for_level
      config_fields any_set lookup insert
  backup_level-choice =
      let t = sets_password b.attributes in
      let s = sets_password j.backup_attributes in
      let chosen : Bool → Bool → Credentials = λ x y.
        credentials_of environ
          (if x then b.attributes else if y then j.backup_attributes else g.backup_attributes) in
      elim (Bool-cases t) [
        | inl e ↦ ap (λ x. settled x s) e ∙ ap (λ x. chosen x s) (sym e)
        | inr e ↦ elim (Bool-cases s) [
          | inl k ↦ ap₂ settled e k ∙ ap₂ chosen (sym e) (sym k)
          | inr k ↦ ap₂ settled e k ∙ ap₂ chosen (sym e) (sym k)
        ]
      ]
