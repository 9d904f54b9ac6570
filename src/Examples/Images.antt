-- ===== src/Examples/Images.antt =====
-- Images, variables and arguments at concrete inputs.
use csm_operator.Prelude.{ok, true, none, some, [], ◌∷◌, ◌≡◌, refl, if◌then◌else◌, any, All}
use csm_operator.Prelude.Text.{
  contains, cut_at, Text, codes, text_eq, is_empty, trim_space, replace_all,
}
use csm_operator.Images.{
  argument_key, overwrite, replace_loop, retained_path, EnvApply, resolve_image,
  replace_all_apply_custom_envs, replace_all_args, update_envs,
}
use csm_operator.Images.Containers.{replace_all_apply_custom_envs-value}
use csm_operator.Csm.{Csm, no_csm, no_spec, no_template}
use csm_operator.Images.{VersionSpec, mapped_image}
use csm_operator.Images.Apply.{
  ContainerApply, update_container_apply, apply_templates, apply_template, set_policy, chosen_image,
}
use csm_operator.Images.Apply.Chosen.{env_names, update_container_apply-version}
use csm_operator.Samples.{flex}
use csm_operator.Drivers.Placeholders.{substitute, last_env}
use csm_operator.Drivers.Placeholders.Flex.{modify_powerflex_cr, power_flex_node_changes}
use csm_operator.Prelude.Dict.{lookup}

abbrev mirrored : Csm
mirrored = record flex {
  spec = record flex.spec {
    custom_registry = codes "mirror:5000";
    retain_image_registry_path = true;
  };
}

abbrev image : Text
image = codes "quay.io/dell/csi:v2"

resolve_test : resolve_image image mirrored ≡ codes "mirror:5000/dell/csi:v2"
unfolding resolve_image is_empty trim_space retained_path cut_at contains
resolve_test = refl

-- A short key takes the place of every argument that contains it.
short_key_test :
    replace_all_args (codes "--leader-election=true" ∷ codes "--v=5" ∷ []) (codes "--l=1" ∷ [])
    ≡ codes "--l=1" ∷ codes "--v=5" ∷ []
unfolding replace_all_args replace_loop overwrite contains any argument_key cut_at
short_key_test = refl

abbrev log_level : EnvApply
log_level = record { name = codes "LOG"; value = some (codes "info"); value_from = none }

replace_all_apply_custom_envs-value_example :
    All
      (λ (e : EnvApply).
        text_eq e.name (codes "LOG") ≡ true
        → e.value ≡ some (if text_eq (codes "debug") (codes "NA") then [] else codes "debug"))
      (replace_all_apply_custom_envs
        (log_level ∷ [])
        []
        (record { name = codes "LOG"; value = codes "debug" } ∷ []))
unfolding text_eq
replace_all_apply_custom_envs-value_example =
    replace_all_apply_custom_envs-value (log_level ∷ []) []
      (record { name = codes "LOG"; value = codes "debug" } ∷ []) (codes "LOG") (codes "debug") refl

-- A container of which the matched version has an image, in a resource with another registry.
abbrev provisioner : ContainerApply
provisioner = record {
  name = codes "provisioner";
  image = codes "old/provisioner:v1";
  image_pull_policy = some (codes "IfNotPresent");
  env = [];
  args = [];
}

abbrev matched_version : VersionSpec
matched_version = record {
  version = codes "v1.16.0";
  images = (codes "provisioner", codes "new/provisioner:v2") ∷ [];
}

abbrev with_registry : Csm
with_registry = record no_csm { spec = record no_spec { custom_registry = codes "registry.io" } }

abbrev updated : ContainerApply
updated = record provisioner { image = codes "new/provisioner:v2" }

update_runs :
    update_container_apply
      (record no_template { name = codes "provisioner"; image = codes "other" } ∷ [])
      provisioner
      with_registry
      matched_version
    ≡ ok updated
unfolding update_container_apply apply_templates text_eq apply_template set_policy is_empty
    chosen_image replace_all_apply_custom_envs replace_all_args mapped_image update_envs
    replace_loop lookup
update_runs = refl

update_container_apply-version_example :
    (updated.image ≡ mapped_image matched_version provisioner.name)
    × (env_names updated ≡ env_names provisioner)
unfolding is_empty mapped_image lookup text_eq
update_container_apply-version_example =
    update_container_apply-version
      (record no_template { name = codes "provisioner"; image = codes "other" } ∷ []) provisioner
      updated with_registry matched_version refl update_runs

-- A file with two placeholders.
substituted :
    modify_powerflex_cr (codes "a: <X_CSI_SDC_ENABLED>, <CSM_NAMESPACE>") flex (codes "Node")
    ≡ codes "a: true, ns"
unfolding modify_powerflex_cr substitute text_eq power_flex_node_changes replace_all last_env
substituted = refl
