-- ===== src/Resolver/Levels.antt =====
-- The generic part of models/resolve.py: how the fields of a level are resolved.
use dockkeep.Prelude.{
  String, Bool, true, false, Option, none, some, List, [], ◌∷◌, ◌++◌, if◌then◌else◌,
}
use dockkeep.Prelude.Dict.{Dict, lookup, insert}
use dockkeep.Resolver.Fields.{
  Level, same_level, InheritanceKind, not_inherited, scalar_override, list_override,
  password_choice, Value, ConfigField, fields_for_level,
}

-- A `dict` whose values may be `None`.
abbrev pub RawValues : Type 0
RawValues = Dict (Option Value)

abbrev pub joined : Option (Option Value) → Option Value
joined none = none
joined (some v) = v

-- `d.get(key)`
abbrev pub get : String → RawValues → Option Value
get key d = joined (lookup key d)

-- A value that is set, or the one of the level above, or the default.
unfoldable pub inherit : Option Value → Option Value → Option Value → Option Value
inherit (some v) above default = some v
inherit none (some v) default = some v
inherit none none default = default

-- `_resolve_scalar` and `_resolve_list`; no field of the table has a `parent_key`.
unfoldable pub resolve_field : ConfigField → RawValues → RawValues → Option Value
unfolding inherit
resolve_field f child_raw parent_resolved =
    inherit (get f.key child_raw) (get f.resolved_key parent_resolved) f.default

-- `capability` -> `resolved_key` -> value
abbrev pub ResolvedValues : Type 0
ResolvedValues = Dict RawValues

abbrev bucket_of : Option RawValues → RawValues
bucket_of none = []
bucket_of (some b) = b

abbrev pub bucket : String → ResolvedValues → RawValues
bucket capability r = bucket_of (lookup capability r)

abbrev set_value : String → String → Option Value → ResolvedValues → ResolvedValues
set_value capability key v r = insert capability (insert key v (bucket capability r)) r

-- The parents of a field, by their level.
abbrev pub Parents : Type 0
Parents = List (Level × RawValues)

abbrev parent : Level → Parents → RawValues
parent level [] = []
parent level ((l, values) ∷ ps) = if same_level l level then values else parent level ps

abbrev pub parent_of : Option Level → Parents → RawValues
parent_of none ps = []
parent_of (some level) ps = parent level ps

abbrev resolve_kind :
    InheritanceKind → ConfigField → RawValues → Parents → ResolvedValues → ResolvedValues
resolve_kind not_inherited f child ps r = insert f.capability (bucket f.capability r) r
resolve_kind scalar_override f child ps r =
    set_value f.capability f.resolved_key (resolve_field f child (parent_of f.parent_level ps)) r
resolve_kind list_override f child ps r =
    set_value f.capability f.resolved_key (resolve_field f child (parent_of f.parent_level ps)) r
resolve_kind password_choice f child ps r = insert f.capability (bucket f.capability r) r

unfoldable pub resolve_fields :
    List ConfigField → RawValues → Parents → ResolvedValues → ResolvedValues
unfolding resolve_field
resolve_fields [] child ps r = r
resolve_fields (f ∷ fs) child ps r =
    resolve_fields fs child ps (resolve_kind f.inheritance f child ps r)

abbrev is_choice : InheritanceKind → Bool
is_choice password_choice = true
is_choice _ = false

-- The fields of the password choice of a level.
abbrev choices : List ConfigField → List ConfigField
choices [] = []
choices (f ∷ fs) = let rest = choices fs in if is_choice f.inheritance then f ∷ rest else rest

abbrev pub is_set : Option Value → Bool
is_set none = false
is_set (some v) = true

unfoldable pub any_set : List ConfigField → RawValues → Bool
any_set [] child = false
any_set (f ∷ fs) child = if is_set (get f.key child) then true else any_set fs child

abbrev child_values : List ConfigField → RawValues → RawValues
child_values [] child = []
child_values (f ∷ fs) child = (f.resolved_key, get f.key child) ∷ child_values fs child

abbrev inherited_values : List ConfigField → Parents → RawValues
inherited_values [] ps = []
inherited_values (f ∷ fs) ps =
    (f.resolved_key, get f.resolved_key (parent_of f.parent_level ps)) ∷ inherited_values fs ps

-- `result.setdefault(capability, {}).update(resolved)`, for the one group of a level.
abbrev with_choice : List ConfigField → RawValues → ResolvedValues → ResolvedValues
with_choice [] values r = r
with_choice (f ∷ fs) values r = insert f.capability (values ++ bucket f.capability r) r

-- The values of a level, by whether the child sets any field of the choice: the whole choice of the
-- child if it does, else the whole choice of the parent (`_resolve_password_choice`).
unfoldable pub settle : Level → RawValues → Parents → Bool → ResolvedValues
unfolding resolve_fields fields_for_level
settle level child ps set =
    let fs = fields_for_level level in
    with_choice (choices fs)
      (if set then child_values (choices fs) child else inherited_values (choices fs) ps)
      (resolve_fields fs child ps [])

unfoldable pub resolve_level : Level → RawValues → Parents → ResolvedValues
unfolding settle any_set fields_for_level
resolve_level level child ps =
    settle level child ps (any_set (choices (fields_for_level level)) child)

-- What a level of the configuration has under a name: the attributes of its model.
abbrev pub Attributes : Type 0
Attributes = String → Option Value

abbrev read : Attributes → List ConfigField → RawValues
read attributes [] = []
read attributes (f ∷ fs) = (f.key, attributes f.key) ∷ read attributes fs

-- `_raw_values`
unfoldable pub raw_values : Attributes → Level → RawValues
unfolding fields_for_level
raw_values attributes level = read attributes (fields_for_level level)

abbrev is_from : Level → ConfigField → Bool
is_from level f = elim f.parent_level [ none ↦ false | some l ↦ same_level l level ]

abbrev read_parent : Attributes → Level → List ConfigField → RawValues
read_parent attributes level [] = []
read_parent attributes level (f ∷ fs) =
    let rest = read_parent attributes level fs in
    if is_from level f then (f.resolved_key, attributes f.key) ∷ rest else rest

-- `_parent_raw_values`: the values of the parent under the names that the child resolves them by.
unfoldable pub parent_raw_values : Attributes → Level → Level → RawValues
unfolding fields_for_level
parent_raw_values attributes child_level parent_level =
    read_parent attributes parent_level (fields_for_level child_level)

-- `_flatten`: a later capability overrides an earlier one.
unfoldable pub flatten : ResolvedValues → RawValues
flatten [] = []
flatten ((capability, b) ∷ r) = flatten r ++ b
