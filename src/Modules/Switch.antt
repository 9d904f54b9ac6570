-- ===== src/Modules/Switch.antt =====
-- The switch over the modules' types in `PreChecks` of controllers/csm_controller.go, and the checks of
-- the reconciler with all the prechecks that are modelled.
pub mod Installed
use csm_operator.Prelude.{List, Bool, true, false, ok, err, Err, if◌then◌else◌}
use csm_operator.Prelude.Text.{Text, codes, text_eq}
use csm_operator.Exec.{Exec, ◌>>◌, pure, raise, wrapping}
use csm_operator.Csm.{
  Csm, ContainerTemplate, Module, authorization, authorization_server, replication, resiliency,
  observability, reverse_proxy,
}
use csm_operator.Files.{OperatorConfig}
use csm_operator.Controller.{Parts}
use csm_operator.Images.Registry.{UrlParse, validate_custom_registry}
use csm_operator.Drivers.Arrays.{Yaml}
use csm_operator.Drivers.Prechecks.{SecretReader, driver_precheck, validate_zones_in_secret}
use csm_operator.Modules.Prechecks.{
  authorization_precheck, authorization_server_precheck, replication_precheck, resiliency_precheck,
  observability_precheck, reverse_proxy_precheck,
}

-- The functions outside the repository that the prechecks use: reads of secrets and of config maps, the
-- decoder of YAML and the parser of URLs.
pub record Tools (W : Type 0) : Type 0 where
  pub get : SecretReader W
  pub get_config_map : SecretReader W
  pub yaml : Yaml
  pub parse_url : UrlParse

module _ {W : Type 0} where
  -- The module's components behind the check. That of authorization edits them.
  unfoldable pub module_precheck :
      Tools W → OperatorConfig → Csm → Module → Exec W (List ContainerTemplate)
  module_precheck tools op cr m =
      if text_eq m.name authorization
      then authorization_precheck tools.get op m cr
      else if text_eq m.name authorization_server
      then (authorization_server_precheck tools.get op m cr >> pure m.components)
      else if text_eq m.name replication
      then (replication_precheck tools.get tools.yaml op m cr >> pure m.components)
      else if text_eq m.name resiliency
      then (resiliency_precheck op m cr >> pure m.components)
      else if text_eq m.name observability
      then (observability_precheck op m cr >> pure m.components)
      else if text_eq m.name reverse_proxy
      then (reverse_proxy_precheck tools.get tools.get_config_map op m cr >> pure m.components)
      else raise (Err.message (codes "unsupported module type"))

  -- The reconciler's parts, with the prechecks of this model.
  abbrev pub with_prechecks : Tools W → OperatorConfig → Parts W → Parts W
  with_prechecks tools op parts = record parts {
    driver_precheck = driver_precheck tools.get tools.yaml op;
    zone_validation = validate_zones_in_secret tools.get tools.yaml;
    module_precheck = module_precheck tools op;
    validate_custom_registry = validate_custom_registry tools.parse_url;
  }
