-- ===== src/Csm/Components.antt =====
-- Loading the default components: `LoadDefaultComponents` and `getDefaultComponents` of
-- pkg/operatorutils/utils.go. The file default-components.yaml, read and parsed, is an argument.
pub mod Laws
use csm_operator.Prelude.{
  Bool, true, false, Option, none, some, List, [], ◌∷◌, map, if◌then◌else◌, is_some, Result, ok,
  wrap, ◌>>=◌,
}
use csm_operator.Prelude.Text.{Text, codes, text_eq, has_prefix, replace_all}
use csm_operator.Csm.{
  ContainerTemplate, Csm, observability, power_scale, power_scale_name, get_module, has_module,
}
use csm_operator.Csm.Modules.{is_module_enabled, has_module_component, add_module_component}

-- "isilon" goes by the name "powerscale" in file and component names
unfoldable pub folder_name : Text → Text
folder_name t = if text_eq t power_scale then power_scale_name else t

unfoldable pub name_component : Text → ContainerTemplate → ContainerTemplate
unfolding has_prefix replace_all
name_component driver_type c =
    if has_prefix c.name (codes "metrics")
    then record c { name = replace_all c.name (codes "<CSI_DRIVER_TYPE>") driver_type }
    else c

-- The only module that the code asks for is `observability`.
unfoldable pub get_default_components : Text → Result Csm → Result (List ContainerTemplate)
unfolding name_component folder_name get_module
get_default_components driver_type file = do
  default_csm ← wrap (codes "failed to read default-components.yaml") file
  ok (
      map (name_component (folder_name driver_type))
        (get_module default_csm observability).components)

-- `for _, comp := range defaultComps`
unfoldable pub add_missing : Csm → List ContainerTemplate → Csm
unfolding has_module_component add_module_component
add_missing cr [] = cr
add_missing cr (c ∷ cs) =
    add_missing
      (if has_module_component cr observability c.name
        then cr
        else add_module_component cr observability c)
      cs

-- Only an enabled module gets the defaults.
unfoldable pub with_defaults : Csm → List ContainerTemplate → Csm
with_defaults cr comps =
    if is_some (is_module_enabled cr observability) then add_missing cr comps else cr

unfoldable pub load_default_components : Csm → Result Csm → Result Csm
load_default_components cr file =
    let defaults = get_default_components cr.spec.driver.csi_driver_type file in
    if has_module cr observability
    then (do
      comps ← wrap (codes "failed to get default components for observability") defaults
      ok (with_defaults cr comps))
    else ok cr
