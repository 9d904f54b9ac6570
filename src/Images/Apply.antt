-- ===== src/Images/Apply.antt =====
-- The containers of a driver's yaml and what the resource makes of them: `UpdateContainerApply`,
-- `ReplaceAllContainerImageApply` and `ModifyCommonCR` of
-- pkg/operatorutils/utils.go.
pub mod Chosen
use csm_operator.Prelude.{
  ℕ, ◌+◌, Bool, true, false, not, ◌&&◌, ◌||◌, Option, none, some, List, [], ◌∷◌, ◌++◌, map,
  if◌then◌else◌, leb, Result, ok, err, Err, ◌>>=◌,
}
use csm_operator.Prelude.Text.{Text, codes, text_eq, is_empty, replace_all}
use csm_operator.Csm.{Csm, EnvVar, ContainerTemplate, resiliency}
use csm_operator.Images.{
  VersionSpec, EnvApply, mapped_image, resolve_image, replace_all_apply_custom_envs,
  replace_all_args,
}

-- A container with a name and an image. A policy that is not there is a nil pointer.
pub record ContainerApply : Type 0 where
  pub name : Text
  pub image : Text
  pub image_pull_policy : Option Text
  pub env : List EnvApply
  pub args : List Text

-- The image of a container that the resource names.
unfoldable pub chosen_image : Csm → VersionSpec → ContainerTemplate → Text → Text
chosen_image cr matched ctr image =
    if not (is_empty (mapped_image matched ctr.name))
    then mapped_image matched ctr.name
    else if not (is_empty cr.spec.custom_registry)
    then resolve_image image cr
    else if not (is_empty ctr.image)
    then ctr.image
    else image

-- *c.ImagePullPolicy = policy, which panics at nil
unfoldable pub set_policy : Text → Option Text → Result (Option Text)
set_policy policy old =
    if is_empty policy
    then ok old
    else (elim old [ none ↦ err Err.panic | some p ↦ ok (some policy) ])

-- One template that has the container's name.
unfoldable pub apply_template :
    Csm → VersionSpec → ContainerTemplate → ContainerApply → Result ContainerApply
apply_template cr matched ctr c = do
  policy ← set_policy ctr.image_pull_policy c.image_pull_policy
  ok (record {
    name = c.name;
    image = chosen_image cr matched ctr c.image;
    image_pull_policy = policy;
    env = replace_all_apply_custom_envs c.env [] ctr.envs;
    args = replace_all_args c.args ctr.args;
  })

-- The image of a container that the resource does not name.
unfoldable pub unnamed_image : Csm → VersionSpec → Text → Text → Text
unnamed_image cr matched name image =
    if not (is_empty (mapped_image matched name))
    then mapped_image matched name
    else if not (is_empty cr.spec.custom_registry)
    then resolve_image image cr
    else image

-- The loop over the templates, with sidecarInSpec, and what stands behind it.
unfoldable pub apply_templates :
    Csm → VersionSpec → Bool → List ContainerTemplate → ContainerApply → Result ContainerApply
apply_templates cr matched in_spec [] c =
    ok (if in_spec then c else record c { image = unnamed_image cr matched c.name c.image })
apply_templates cr matched in_spec (ctr ∷ rest) c =
    let passed_over = apply_templates cr matched in_spec rest c in
    if text_eq c.name ctr.name
    then (apply_template cr matched ctr c >>= λ c'. apply_templates cr matched true rest c')
    else passed_over

unfoldable pub update_container_apply :
    List ContainerTemplate → ContainerApply → Csm → VersionSpec → Result ContainerApply
update_container_apply templates c cr matched = apply_templates cr matched false templates c

-- The images of a version of Kubernetes, with the fields that are read
pub record K8sImages : Type 0 where
  pub attacher : Text
  pub provisioner : Text
  pub snapshotter : Text
  pub registrar : Text
  pub resizer : Text
  pub external_health_monitor : Text
  pub sdc_monitor : Text
  pub podmon : Text

unfoldable pub default_image : K8sImages → Text → Text → Text
default_image img name image =
    if text_eq name (codes "provisioner")
    then img.provisioner
    else if text_eq name (codes "attacher")
    then img.attacher
    else if text_eq name (codes "snapshotter")
    then img.snapshotter
    else if text_eq name (codes "registrar")
    then img.registrar
    else if text_eq name (codes "resizer")
    then img.resizer
    else if text_eq name (codes "external-health-monitor")
    then img.external_health_monitor
    else if text_eq name (codes "sdc") || text_eq name (codes "sdc-monitor")
    then img.sdc_monitor
    else if text_eq name resiliency
    then img.podmon
    else image

unfoldable pub replace_all_container_image_apply : K8sImages → ContainerApply → ContainerApply
replace_all_container_image_apply img c = record c { image = default_image img c.name c.image }

-- The first variable KUBELET_CONFIG_DIR.
unfoldable pub kubelet_path : List EnvVar → Text
kubelet_path [] = codes "/var/lib/kubelet"
kubelet_path (env ∷ envs) =
    let rest = kubelet_path envs in
    if text_eq env.name (codes "KUBELET_CONFIG_DIR") then env.value else rest

abbrev pub set_unless_empty : Text → Text → Text → Text
set_unless_empty placeholder value yaml =
    if is_empty value then yaml else replace_all yaml placeholder value

unfoldable pub modify_common_cr : Text → Csm → Text
modify_common_cr yaml cr =
    let named = set_unless_empty (codes "<DriverDefaultReleaseName>") cr.name yaml in
    let placed = set_unless_empty (codes "<DriverDefaultReleaseNamespace>") cr.namespace named in
    elim cr.spec.driver.common [
      | none ↦ replace_all placed (codes "<KUBELET_CONFIG_DIR>") (kubelet_path [])
      | some common ↦
          replace_all (set_unless_empty (codes "IfNotPresent") common.image_pull_policy placed)
            (codes "<KUBELET_CONFIG_DIR>") (kubelet_path common.envs)
    ]
