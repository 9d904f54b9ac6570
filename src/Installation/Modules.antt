-- ===== src/Installation/Modules.antt =====
-- The modules' parts in an installation and in a removal: `reconcileObservability`,
-- `reconcileAuthorization`, `reconcileAuthorizationCRDS` and `applyCSMDRCRD` of
-- controllers/csm_controller.go, `PatchCSMDRCRDs` of pkg/modules/commonconfig.go and
-- `GetDriverCommonEnv` of pkg/drivers/commonconfig.go.
pub mod Steps
use csm_operator.Prelude.{
  Bool, true, false, not, ◌&&◌, ◌||◌, Option, none, some, List, [], ◌∷◌, if◌then◌else◌, ltb, find,
  is_some, Result, ok, err, Err, ok_or,
}
use csm_operator.Prelude.Text.{Text, codes, text_eq, is_empty, contains}
use csm_operator.Exec.{Exec, ◌>>=◌, ◌>>◌, pure, raise, lift, attempt, wrapping}
use csm_operator.Csm.{
  Csm, Module, ContainerTemplate, EnvVar, observability, authorization_server, is_module,
}
use csm_operator.Csm.Modules.{is_module_enabled, is_module_component_enabled}
use csm_operator.Cluster.{Deployment}
use csm_operator.Files.{OperatorConfig}
use csm_operator.Version.{min_version_check}
use csm_operator.Upgrade.{get_version}
use csm_operator.Images.{VersionSpec}
use csm_operator.Objects.{Object}
use csm_operator.Objects.Apply.{apply_delete_objects}
use csm_operator.Installation.{Components, when}

-- The names of observability's components.
abbrev pub otel_collector_name : Text
otel_collector_name = codes "otel-collector"

abbrev pub topology_name : Text
topology_name = codes "topology"

abbrev pub cert_manager_component : Text
cert_manager_component = codes "cert-manager"

abbrev pub metrics_power_scale_name : Text
metrics_power_scale_name = codes "metrics-powerscale"

abbrev pub metrics_power_flex_name : Text
metrics_power_flex_name = codes "metrics-powerflex"

abbrev pub metrics_power_max_name : Text
metrics_power_max_name = codes "metrics-powermax"

abbrev pub metrics_power_store_name : Text
metrics_power_store_name = codes "metrics-powerstore"

-- The names of the authorization server's components.
abbrev pub proxy_server_component : Text
proxy_server_component = codes "proxy-server"

abbrev pub nginx_component : Text
nginx_component = codes "nginx"

abbrev pub gateway_component : Text
gateway_component = codes "nginx-gateway-fabric"

module _ {W : Type 0} (parts : Components W) (op : OperatorConfig) where
  -- The components that are enabled, by the order in which the module lists them.
  unfoldable pub enabled_names : Csm → List ContainerTemplate → Result (List Text)
  enabled_names cr [] = ok []
  enabled_names cr (c ∷ cs) =
      let rest = enabled_names cr cs in
      elim (is_module_component_enabled cr observability c.name) [
        | err e ↦ err e
        | ok b ↦ elim rest [ err e ↦ err e | ok names ↦ ok (if b then c.name ∷ names else names) ]
      ]

  -- No components stand for all that are enabled.
  unfoldable pub components_of : Csm → List Text → Result (List Text)
  components_of cr [] = elim (is_module_enabled cr observability) [
    | none ↦ ok []
    | some m ↦ enabled_names cr m.components
  ]
  components_of cr (t ∷ ts) = ok (t ∷ ts)

  -- strings.Contains(configVersion, "v2.13") || strings.Contains(configVersion, "v2.14")
  unfoldable pub has_topology : Text → Bool
  has_topology v = contains v (codes "v2.13") || contains v (codes "v2.14")

  unfoldable pub reconcile_component : Bool → Csm → VersionSpec → Text → Text → Exec W (Unit {0})
  reconcile_component is_deleting cr matched version comp =
      if text_eq comp otel_collector_name
      then parts.otel_collector is_deleting cr matched
      else if text_eq comp cert_manager_component
      then parts.common_cert_manager is_deleting cr matched
      else if text_eq comp topology_name
      then when (has_topology version) (parts.observability_topology is_deleting cr matched)
      else if text_eq comp metrics_power_scale_name
      then parts.power_scale_metrics is_deleting cr
      else if text_eq comp metrics_power_flex_name
      then parts.power_flex_metrics is_deleting cr
      else if text_eq comp metrics_power_max_name
      then parts.power_max_metrics is_deleting cr
      else if text_eq comp metrics_power_store_name
      then parts.power_store_metrics is_deleting cr
      else raise (Err.message (codes "unsupported component type"))

  unfoldable pub reconcile_components :
      Bool → Csm → VersionSpec → Text → List Text → Exec W (Unit {0})
  reconcile_components is_deleting cr matched version [] = pure tt
  reconcile_components is_deleting cr matched version (comp ∷ comps) =
      reconcile_component is_deleting cr matched version comp
      >> reconcile_components is_deleting cr matched version comps

  -- The webhook of cert-manager has to be ready before certificates are made.
  unfoldable pub await_webhook : Csm → Exec W (Unit {0})
  await_webhook cr =
      wrapping (codes "cert-manager-webhook deployment not found, will retry")
        (parts.api.get_deployment cr.namespace (codes "cert-manager-webhook"))
      >>= λ d.
          if ltb d.ready_replicas 1
          then raise (Err.message (codes "cert-manager-webhook is not ready yet"))
          else pure tt

  -- `!isDeleting && IsModuleComponentEnabled(...)`, whose second part is not evaluated in a deletion.
  unfoldable pub webhook_step : Bool → Csm → Exec W (Unit {0})
  webhook_step true cr = pure tt
  webhook_step false cr =
      lift (is_module_component_enabled cr observability cert_manager_component) >>= λ b.
      when b (await_webhook cr)

  unfoldable pub reconcile_observability : Bool → Csm → List Text → VersionSpec → Exec W (Unit {0})
  reconcile_observability is_deleting cr components matched =
      lift (get_version cr op) >>= λ version. lift (components_of cr components) >>= λ comps.
      reconcile_components is_deleting cr matched version comps
      >> webhook_step is_deleting cr
      >> wrapping (codes "unable to deploy Certificate & Issuer for Observability")
          (parts.issuer_cert_service_obs is_deleting cr)

  -- `if IsModuleComponentEnabled(AuthorizationServer, component) { call }`
  unfoldable pub if_component : Csm → Text → Exec W (Unit {0}) → Exec W (Unit {0})
  if_component cr component m =
      lift (is_module_component_enabled cr authorization_server component) >>= λ b. when b m

  -- Whether the first module of the type has v2.5.0 or later; an error is logged, and counts as no.
  unfoldable pub is_v25_or_later : Csm → Bool
  is_v25_or_later cr = elim (find (is_module authorization_server) cr.spec.modules) [
    | none ↦ false
    | some m ↦ ok_or false (min_version_check (codes "v2.5.0") m.config_version)
  ]

  -- A new gateway takes the place of the ingress controller of earlier versions. An error of the
  -- cleanup is logged.
  unfoldable pub reconcile_gateway : Bool → Csm → Exec W (Unit {0})
  reconcile_gateway is_deleting cr =
      when (not is_deleting) (attempt (parts.nginx_ingress_controller_cleanup cr) >>= λ _. pure tt)
      >> wrapping (codes "unable to reconcile gateway API controller for authorization")
          (parts.gateway_controller is_deleting cr)

  unfoldable pub reconcile_ingress_controller : Bool → Csm → Bool → Bool → Exec W (Unit {0})
  reconcile_ingress_controller is_deleting cr gateway nginx =
      if parts.is_open_shift
      then pure tt
      else if is_v25_or_later cr && (gateway || nginx)
      then reconcile_gateway is_deleting cr
      else when nginx (
          wrapping (codes "unable to reconcile nginx ingress controller for authorization")
            (parts.nginx_ingress_controller is_deleting cr))

  unfoldable pub reconcile_authorization : Bool → Csm → VersionSpec → Exec W (Unit {0})
  reconcile_authorization is_deleting cr matched =
      if_component cr cert_manager_component (
        wrapping (codes "unable to reconcile cert-manager for authorization")
          (parts.common_cert_manager is_deleting cr matched))
      >> if_component cr proxy_server_component (
          wrapping (codes "unable to reconcile authorization proxy server")
            (parts.authorization_server_deployment is_deleting cr matched)
          >> wrapping (codes "unable to install policies") (parts.install_policies is_deleting cr))
      >> (lift (is_module_component_enabled cr authorization_server gateway_component)
          >>= λ gateway.
              lift (is_module_component_enabled cr authorization_server nginx_component)
              >>= λ nginx. reconcile_ingress_controller is_deleting cr gateway nginx)
      >> if_component cr proxy_server_component (
          wrapping (codes "unable to reconcile authorization ingress rules")
            (parts.authorization_ingress is_deleting cr))
      >> wrapping (codes "unable to install certificates for Authorization")
          (parts.install_with_certs is_deleting cr)

  unfoldable pub reconcile_authorization_crds : Csm → Exec W (Unit {0})
  reconcile_authorization_crds cr =
      if_component cr proxy_server_component
        (wrapping (codes "unable to reconcile Authorization CRDs") (parts.auth_crd_deploy cr))

  unfoldable pub patch_csm_dr_crds : Bool → Exec W (Unit {0})
  patch_csm_dr_crds is_deleting =
      lift parts.csm_dr_crds >>= λ os. apply_delete_objects parts.objects is_deleting os

  -- An older version has no disaster recovery, and loses its definitions.
  unfoldable pub patch_compatible : Bool → Bool → Exec W (Unit {0})
  patch_compatible is_deleting true =
      wrapping (codes "unable to patch the common CSM Disaster Recovery (DR) Controller")
        (patch_csm_dr_crds is_deleting)
  patch_compatible is_deleting false =
      wrapping (codes "unable to remove the common CSM DR Controller") (patch_csm_dr_crds true)

  -- The error of the check is replaced by one with the version.
  unfoldable pub patch_checked : Bool → Result Bool → Exec W (Unit {0})
  patch_checked is_deleting (ok compatible) = patch_compatible is_deleting compatible
  patch_checked is_deleting (err e) = raise (Err.message (codes "error checking version"))

  unfoldable pub apply_csm_dr_crd : Csm → Bool → Exec W (Unit {0})
  apply_csm_dr_crd cr is_deleting = lift (get_version cr op) >>= λ version.
      patch_checked is_deleting (min_version_check (codes "v2.16.0") version)
