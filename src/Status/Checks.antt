-- ===== src/Status/Checks.antt =====
-- The checks of the modules' deployments: `observabilityStatusCheck` and `authProxyStatusCheck`, and
-- the polls of the ingress and gateway controllers.
pub mod Ready
use csm_operator.Prelude.{
  ℕ, Bool, true, false, not, ◌&&◌, ◌||◌, Option, none, some, List, [], ◌∷◌, ◌++◌, if◌then◌else◌,
  ◌==◌, find, get_or, Result, ok, err, ok_or,
}
use csm_operator.Prelude.Text.{Text, codes, text_eq, contains}
use csm_operator.Files.{OperatorConfig}
use csm_operator.Exec.{Exec, ◌>>=◌, pure, lift}
use csm_operator.Version.{min_version_check}
use csm_operator.Upgrade.{get_version}
use csm_operator.Csm.{
  ContainerTemplate, Module, Csm, no_module, observability, authorization_server, is_module,
  get_module,
}
use csm_operator.Csm.Modules.{deref}
use csm_operator.Csm.Components.{folder_name}
use csm_operator.Cluster.{Deployment, Client}

-- The loops over the modules of one name go through all of their components.
unfoldable pub components_of : Text → List Module → List ContainerTemplate
components_of t [] = []
components_of t (m ∷ ms) =
    let rest = components_of t ms in if text_eq m.name t then m.components ++ rest else rest

-- `if c.Name == name && *c.Enabled { flag = true }` for every component
unfoldable pub component_flag : Text → List ContainerTemplate → Result Bool
component_flag name [] = ok false
component_flag name (c ∷ cs) = elim (text_eq c.name name) [
  | false ↦ component_flag name cs
  | true ↦ elim (deref c.enabled) [
    | err e ↦ err e
    | ok b ↦ elim (component_flag name cs) [ err e ↦ err e | ok later ↦ ok (b || later) ]
  ]
]

-- checkFn
unfoldable pub check_fn : Deployment → Bool
check_fn d = d.ready_replicas == d.spec_replicas

-- The loop over the deployments: those that are needed by name must be ready.
unfoldable pub all_ready : (Text → Bool) → List Deployment → Bool
all_ready needed [] = true
all_ready needed (d ∷ ds) =
    let rest = all_ready needed ds in if needed d.name && not (check_fn d) then false else rest

pub record ObservabilityFlags : Type 0 where
  pub topology_enabled : Bool
  pub otel_enabled : Bool
  pub cert_enabled : Bool
  pub metrics_enabled : Bool

unfoldable pub observability_flags : Text → List ContainerTemplate → Result ObservabilityFlags
observability_flags driver_name cs = elim (component_flag (codes "topology") cs) [
  | err e ↦ err e
  | ok topology ↦ elim (component_flag (codes "otel-collector") cs) [
    | err e ↦ err e
    | ok otel ↦ elim (component_flag (codes "cert-manager") cs) [
      | err e ↦ err e
      | ok cert ↦ elim (component_flag (codes "metrics-" ++ driver_name) cs) [
        | err e ↦ err e
        | ok metrics ↦ ok (record {
          topology_enabled = topology;
          otel_enabled = otel;
          cert_enabled = cert;
          metrics_enabled = metrics;
        })
      ]
    ]
  ]
]

-- The first `switch`.
unfoldable pub needs_observability : Text → ObservabilityFlags → Text → Bool
needs_observability driver_name f name =
    if text_eq name (codes "otel-collector")
    then f.otel_enabled
    else if text_eq name (codes "karavi-metrics-" ++ driver_name)
    then f.metrics_enabled
    else if text_eq name (codes "karavi-topology")
    then f.topology_enabled
    else false

-- The second `switch`, which the authorization check has too.
unfoldable pub needs_cert_manager : Bool → Text → Bool
needs_cert_manager cert_enabled name =
    cert_enabled
    && (text_eq name (codes "cert-manager")
        || text_eq name (codes "cert-manager-cainjector")
        || text_eq name (codes "cert-manager-webhook"))

-- The namespace of the observability deployments at a config version.
unfoldable pub observability_namespace : Csm → Text → Text
observability_namespace cr config_version =
    if contains config_version (codes "v2.13") || contains config_version (codes "v2.14")
    then codes "karavi"
    else cr.namespace

-- `all_ready` on the first list answers before the second list is asked for.
unfoldable pub check_lists :
    {W : Type 0} → Client W → Text → Text → ObservabilityFlags → List Deployment → Exec W Bool
check_lists api namespace driver_name f ds =
    if all_ready (needs_observability driver_name f) ds
    then (api.list_deployments namespace >>= λ certs.
        pure (all_ready (needs_cert_manager f.cert_enabled) certs))
    else pure false

unfoldable pub observability_status_check :
    {W : Type 0} → Client W → Csm → OperatorConfig → Exec W Bool
observability_status_check api cr op = do
  flags ← lift (
      observability_flags (folder_name cr.spec.driver.csi_driver_type)
        (components_of observability cr.spec.modules))
  config_version ← lift (get_version cr op)
  ds ← api.list_deployments (observability_namespace cr config_version)
  check_lists api (observability_namespace cr config_version)
      (folder_name cr.spec.driver.csi_driver_type) flags ds

pub record ProxyFlags : Type 0 where
  pub proxy_cert_enabled : Bool
  pub nginx_enabled : Bool
  pub gateway_enabled : Bool

-- The version check of the first authorization server; its error counts as false.
unfoldable pub use_gateway_api : Csm → Bool
use_gateway_api cr = elim (find (is_module authorization_server) cr.spec.modules) [
  | none ↦ false
  | some m ↦ ok_or false (min_version_check (codes "v2.5.0") m.config_version)
]

-- `*c.Enabled` stands before `useGatewayAPI` in the test of the gateway, so it is read in any case.
unfoldable pub proxy_flags : Bool → List ContainerTemplate → Result ProxyFlags
proxy_flags gateway_api cs = elim (component_flag (codes "ingress-nginx") cs) [
  | err e ↦ err e
  | ok nginx ↦ elim (component_flag (codes "nginx-gateway-fabric") cs) [
    | err e ↦ err e
    | ok fabric ↦ elim (component_flag (codes "nginx") cs) [
      | err e ↦ err e
      | ok legacy ↦ elim (component_flag (codes "cert-manager") cs) [
        | err e ↦ err e
        | ok cert ↦ ok (record {
          proxy_cert_enabled = cert;
          nginx_enabled = nginx;
          gateway_enabled = (fabric || legacy) && gateway_api;
        })
      ]
    ]
  ]
]

-- The deployments that every authorization server has.
unfoldable pub is_proxy_service : Text → Bool
is_proxy_service name =
    text_eq name (codes "proxy-server")
    || text_eq name (codes "redis-commander")
    || text_eq name (codes "redis-primary")
    || text_eq name (codes "role-service")
    || text_eq name (codes "storage-service")
    || text_eq name (codes "tenant-service")
    || text_eq name (codes "authorization-controller")

-- The `switch` over the deployments' names.
unfoldable pub needs_proxy : Text → ProxyFlags → Text → Bool
needs_proxy namespace f name =
    if text_eq name (namespace ++ codes "-ingress-nginx-controller")
    then f.nginx_enabled
    else if text_eq name (namespace ++ codes "-nginx-gateway-controller")
    then f.gateway_enabled
    else (needs_cert_manager f.proxy_cert_enabled name || is_proxy_service name)

unfoldable pub auth_proxy_status_check : {W : Type 0} → Client W → Csm → Exec W Bool
auth_proxy_status_check api cr = do
  flags ←
      lift (proxy_flags (use_gateway_api cr) (components_of authorization_server cr.spec.modules))
  ds ← api.list_deployments cr.namespace
  pure (all_ready (needs_proxy cr.namespace flags) ds)

-- The poll of `WaitForGatewayController`.
unfoldable pub gateway_controller_ready : {W : Type 0} → Client W → Csm → Exec W Bool
gateway_controller_ready api cr =
    api.get_deployment cr.namespace (cr.namespace ++ codes "-nginx-gateway-fabric") >>= λ d.
    pure (check_fn d)
