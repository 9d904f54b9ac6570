-- ===== src/Images.antt =====
-- Images, environment variables and arguments of the containers that are installed: `ResolveImage`,
-- `GetImageField`, `GetFinalImage`, `ReplaceAllApplyCustomEnvs`, `ReplaceAllArgs`,
-- `ValidateConfigMap` and the choice of a version in `UpdateUsingConfigMap`, of
-- pkg/operatorutils/utils.go.
pub mod Registry
pub mod Resolve
pub mod Containers
pub mod Apply
use csm_operator.Prelude.{
  ℕ, Bool, true, false, not, ◌&&◌, ◌||◌, Option, none, some, List, [], ◌∷◌, ◌++◌, if◌then◌else◌,
  any, find, get_or, Result, ok, err, Err,
}
use csm_operator.Prelude.Text.{
  Text, codes, text_eq, is_empty, has_prefix, contains, split, trim_space, strip_prefix?, cut_at,
  behind_last,
}
use csm_operator.Prelude.Dict.{Dict, lookup, insert}
use csm_operator.Csm.{Csm, ContainerTemplate, EnvVar}

-- A version of the ConfigMap csm-images, with the images of its components
pub record VersionSpec : Type 0 where
  pub version : Text
  pub images : Dict Text

abbrev pub no_version : VersionSpec
no_version = record { version = []; images = [] }

-- The path behind a registry's domain, which has a dot or is "localhost".
unfoldable pub retained_path : Text → Text
retained_path image = elim (cut_at b'/' image) [
  | none ↦ image
  | some (domain, path) ↦
      if contains domain (codes ".") || text_eq domain (codes "localhost") then path else image
]

unfoldable pub resolve_image : Text → Csm → Text
resolve_image original cr =
    let registry = trim_space cr.spec.custom_registry in
    let image = trim_space original in
    if is_empty registry
    then original
    else registry
      ++ b'/'
        ∷ (if cr.spec.retain_image_registry_path
            then retained_path image
            else behind_last b'/' image)

-- The loop over the lines: the last image field counts.
unfoldable pub last_image : List Text → Text → Text
last_image [] image = image
last_image (line ∷ lines) image =
    last_image lines (elim (strip_prefix? (trim_space line) (codes "image:")) [
      | none ↦ image
      | some rest ↦ trim_space rest
    ])

-- A text of one line is taken as it is.
unfoldable pub image_of_lines : Text → List Text → Text
image_of_lines yaml (line ∷ []) = yaml
image_of_lines yaml lines = last_image lines []

unfoldable pub get_image_field : Text → Text
get_image_field yaml = image_of_lines yaml (split yaml 10)

-- matched.Images[name], and an empty text where no version is matched
unfoldable pub mapped_image : VersionSpec → Text → Text
mapped_image matched name =
    if is_empty matched.version then [] else get_or (lookup matched.images name) []

unfoldable pub get_final_image : Csm → VersionSpec → ContainerTemplate → Text → Text
get_final_image cr matched component yaml =
    if not (is_empty (mapped_image matched component.name))
    then mapped_image matched component.name
    else if not (is_empty cr.spec.custom_registry)
    then resolve_image (get_image_field yaml) cr
    else if not (is_empty component.image)
    then component.image
    else get_image_field yaml

unfoldable pub validate_config_map : VersionSpec → Result (Unit {0})
validate_config_map v =
    if any (λ (k, image). is_empty image) v.images
    then err (Err.message (codes "value for key"))
    else ok tt

-- The end of `UpdateUsingConfigMap`, once the list of versions is parsed; the matched version stands
-- beside an error in Go, and no caller reads it then.
unfoldable pub match_version : Csm → List VersionSpec → Result VersionSpec
match_version cr versions = elim (find (λ v. text_eq v.version cr.spec.version) versions) [
  | none ↦ ok no_version
  | some v ↦ elim (validate_config_map v) [ err e ↦ err e | ok _ ↦ ok v ]
]

-- EnvVarSourceApplyConfiguration: the references that the code copies, and whether there is another.
pub record EnvSource : Type 0 where
  pub field_path : Option Text
  -- name, key and optional
  pub secret_key_ref : Option (Text × Option Text × Option Bool)
  pub other_ref : Bool

-- EnvVarApplyConfiguration
pub record EnvApply : Type 0 where
  pub name : Text
  pub value : Option Text
  pub value_from : Option EnvSource

-- An empty value is kept as "NA".
unfoldable pub add_updates : List EnvVar → Dict Text → Dict Text
add_updates [] temp = temp
add_updates (update ∷ updates) temp =
    add_updates updates
      (insert temp update.name (if is_empty update.value then codes "NA" else update.value))

-- A reference to a secret takes the place of one to a field; another reference is dropped.
unfoldable pub copy_source : EnvSource → Option EnvSource
copy_source s = elim s.secret_key_ref [
  | some ref ↦ some (record { field_path = none; secret_key_ref = some ref; other_ref = false })
  | none ↦ elim s.field_path [
    | some path ↦ some (record { field_path = some path; secret_key_ref = none; other_ref = false })
    | none ↦ none
  ]
]

unfoldable pub update_env : Dict Text → EnvApply → EnvApply
update_env temp old =
    let new_value = get_or (lookup temp old.name) [] in
    if not (is_empty new_value)
    then record {
      name = old.name;
      value = some (if text_eq new_value (codes "NA") then [] else new_value);
      value_from = none;
    }
    else (elim old.value_from [
      | none ↦ record { name = old.name; value = old.value; value_from = none }
      | some s ↦ record { name = old.name; value = none; value_from = copy_source s }
    ])

unfoldable pub update_envs : Dict Text → List EnvApply → List EnvApply
update_envs temp [] = []
update_envs temp (old ∷ olds) = update_env temp old ∷ update_envs temp olds

unfoldable pub replace_all_apply_custom_envs :
    List EnvApply → List EnvVar → List EnvVar → List EnvApply
replace_all_apply_custom_envs driver_env common_env nr_env =
    update_envs (add_updates nr_env (add_updates common_env [])) driver_env

-- strings.Split(old, "=")[0]
unfoldable pub argument_key : Text → Text
argument_key argument = elim (cut_at b'=' argument) [ none ↦ argument | some (key, _) ↦ key ]

-- One pass over the default arguments: every one that contains the key becomes the argument.
unfoldable pub overwrite : Text → Text → List Text → List Text
overwrite key argument [] = []
overwrite key argument (a ∷ rest) =
    (if contains a key then argument else a) ∷ overwrite key argument rest

-- The loop over the resource's arguments; those without a match are appended at the end.
unfoldable pub replace_loop : List Text → List Text → List Text → List Text
replace_loop defaults [] merge = defaults ++ merge
replace_loop defaults (argument ∷ arguments) merge =
    let key = argument_key argument in
    let found = any (λ a. contains a key) defaults in
    replace_loop (overwrite key argument defaults) arguments
      (if found then merge else merge ++ argument ∷ [])

unfoldable pub replace_all_args : List Text → List Text → List Text
replace_all_args default_args cr_args = replace_loop default_args cr_args []
