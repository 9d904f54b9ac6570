-- ===== src/Modules/Prechecks.antt =====
-- The prechecks of the six modules, the switch over them in `PreChecks`, and `ValidateCustomRegistry`.
-- The calls of package log are left out.
pub mod Passing
pub mod Tokens
use csm_operator.Prelude.{
  ℕ, Bool, true, false, not, ◌&&◌, ◌||◌, Option, none, some, List, [], ◌∷◌, ◌++◌, map,
  if◌then◌else◌, any, Result, ok, err, Err, wrap, is_ok, get_or,
}
use csm_operator.Prelude.Text.{Text, codes, text_eq, is_empty, trim_space, has_prefix}
use csm_operator.Exec.{Exec, ◌>>=◌, ◌>>◌, pure, raise, lift, wrapping, attempt}
use csm_operator.Csm.{
  Csm, EnvVar, ContainerTemplate, Module, authorization, authorization_server, replication,
  resiliency, observability, reverse_proxy, power_flex, power_max, power_scale, power_store,
}
use csm_operator.Files.{OperatorConfig}
use csm_operator.Version.{min_version_check}
use csm_operator.Upgrade.{get_version, get_module_default_version}
use csm_operator.Drivers.Arrays.{Yaml}
use csm_operator.Drivers.Certificates.{or_refused, is_invalid, common_envs}
use csm_operator.Drivers.Certificates.Numbers.{parse_bool}
use csm_operator.Drivers.Prechecks.{
  SecretReader, is_missing, find_secrets, get_secret, precheck_power_scale, precheck_power_flex,
  precheck_power_store,
}

-- The names in the module's folder have the version. The text of the error takes all but the last
-- character of the names, each with a comma, and there is none to take where the folder is empty.
unfoldable pub check_version : Text → Text → OperatorConfig → Result (Unit {0})
check_version module_type given op = elim (op.module_versions module_type) [
  | err e ↦ err e
  | ok [] ↦ err Err.panic
  | ok (file ∷ files) ↦
      if any (text_eq given) (file ∷ files)
      then ok tt
      else err (Err.message (codes "CSM " ++ module_type ++ codes " does not have"))
]

abbrev pub check_config_version : Text → Module → OperatorConfig → Result (Unit {0})
check_config_version module_type m op =
    if is_empty m.config_version then ok tt else check_version module_type m.config_version op

-- The keys of the maps of supported drivers.
abbrev pub authorization_supported_drivers : List Text
authorization_supported_drivers =
    codes "powerscale" ∷ power_scale ∷ power_flex ∷ codes "vxflexos" ∷ power_max ∷ []

abbrev pub replication_supported_drivers : List Text
replication_supported_drivers =
    codes "powerscale" ∷ power_scale ∷ power_flex ∷ codes "vxflexos" ∷ power_max ∷ power_store ∷ []

abbrev pub resiliency_supported_drivers : List Text
resiliency_supported_drivers = replication_supported_drivers

abbrev pub observability_supported_drivers : List Text
observability_supported_drivers = replication_supported_drivers

abbrev pub reverseproxy_supported_drivers : List Text
reverseproxy_supported_drivers = power_max ∷ []

abbrev pub check_supported_driver : List Text → Csm → Result (Unit {0})
check_supported_driver supported cr =
    if any (text_eq cr.spec.driver.csi_driver_type) supported
    then ok tt
    else err (Err.message (codes "the module does not support the driver"))

abbrev pub skip_validation : Text
skip_validation = codes "SKIP_CERTIFICATE_VALIDATION"

-- The proxy's component gets the variable where it has none.
unfoldable pub add_skip : ContainerTemplate → ContainerTemplate
add_skip c =
    if text_eq c.name (codes "karavi-authorization-proxy")
      && not (any (λ e. text_eq e.name skip_validation) c.envs)
    then record c { envs = c.envs ++ record { name = skip_validation; value = codes "true" } ∷ [] }
    else c

-- The loop over the first component's variables, with skipCertValid.
unfoldable pub read_proxy_envs : Bool → List EnvVar → Result Bool
read_proxy_envs skip [] = ok skip
read_proxy_envs skip (env ∷ envs) =
    let rest = λ (next : Bool). read_proxy_envs next envs in
    let checked = λ (next : Bool).
      if text_eq env.name (codes "PROXY_HOST") && is_empty env.value
      then err (Err.message (codes "PROXY_HOST for authorization is empty"))
      else rest next in
    if text_eq env.name skip_validation
    then elim (parse_bool env.value) [
      | none ↦ err (is_invalid env.value skip_validation)
      | some b ↦ checked b
    ]
    else checked skip

-- auth.Components[0]
abbrev pub first_envs : List ContainerTemplate → Result (List EnvVar)
first_envs [] = err Err.panic
first_envs (c ∷ cs) = ok c.envs

-- The version that the module names, or the driver's default for it.
unfoldable pub auth_config_version : OperatorConfig → Module → Csm → Result Text
auth_config_version op auth cr =
    if is_empty auth.config_version
    then elim (get_version cr op) [
      | err e ↦ err e
      | ok version ↦
          get_module_default_version version cr.spec.driver.csi_driver_type authorization op
    ]
    else ok auth.config_version

abbrev pub authorization_secrets : Bool → Bool → List Text
authorization_secrets in_driver_secret skip =
    codes "proxy-authz-tokens"
      ∷ (if in_driver_secret then [] else codes "karavi-authorization-config" ∷ [])
    ++ (if skip then [] else codes "proxy-server-root-certificate" ∷ [])

module _ {W : Type 0} where
  -- One `GetSecret` after another, whose error ends the check.
  unfoldable pub require_secrets : SecretReader W → Text → List Text → Exec W (Unit {0})
  require_secrets get namespace [] = pure tt
  require_secrets get namespace (name ∷ names) =
      let rest = require_secrets get namespace names in
      attempt (get_secret get namespace name) >>= λ r.
      if is_ok r then rest else raise (Err.message (codes "failed to find secret " ++ name))

  -- The components that come back are those of the resource behind the check, which shares them.
  unfoldable pub authorization_precheck :
      SecretReader W → OperatorConfig → Module → Csm → Exec W (List ContainerTemplate)
  authorization_precheck get op auth cr =
      let components = map add_skip auth.components in
      lift (check_supported_driver authorization_supported_drivers cr)
      >> lift (check_config_version authorization auth op)
      >> lift (first_envs components)
      >>= λ envs. lift (read_proxy_envs false envs) >>= λ skip.
          lift (auth_config_version op auth cr) >>= λ version.
          lift (min_version_check (codes "v2.4.0") version) >>= λ in_driver_secret.
          require_secrets get cr.namespace (authorization_secrets in_driver_secret skip)
          >> pure components

-- The gateway's component is there, and switched on.
unfoldable pub nginx_gateway_enabled : List ContainerTemplate → Bool
nginx_gateway_enabled cs =
    any (λ c. text_eq c.name (codes "nginx-gateway-fabric") && get_or c.enabled false) cs

-- One component's ingress and gateway, for a version from 2.5.0 on and the gateway's component.
unfoldable pub check_routes : Bool → Bool → ContainerTemplate → Result (Unit {0})
check_routes is_v25 gateway c =
    if text_eq c.name (codes "proxy-server")
    then (if is_v25 && gateway && c.has_ingress
        then err (Err.message (codes "proxyServerIngress is not supported"))
        else if not is_v25 && not gateway && c.has_gateway
        then err (Err.message (codes "gateway field is not supported"))
        else ok tt)
    else ok tt

unfoldable pub check_all_routes : Bool → Bool → List ContainerTemplate → Result (Unit {0})
check_all_routes is_v25 gateway [] = ok tt
check_all_routes is_v25 gateway (c ∷ cs) = elim (check_routes is_v25 gateway c) [
  | err e ↦ err e
  | ok u ↦ check_all_routes is_v25 gateway cs
]

-- A component `config` names a provider class for its secret.
unfoldable pub has_config_provider : List ContainerTemplate → Bool
has_config_provider cs =
    any (λ c. text_eq c.name (codes "config") && any (λ n. not (is_empty n)) c.config_providers) cs

unfoldable pub check_gateway : Bool → Module → Result (Unit {0})
check_gateway is_v25 auth =
    if not is_v25 && nginx_gateway_enabled auth.components
    then err (Err.message (codes "nginx-gateway-fabric component is not supported"))
    else check_all_routes is_v25 (nginx_gateway_enabled auth.components) auth.components

-- The secret and the config map that the reverse proxy asks for; the last variable of a name counts.
unfoldable pub name_in : Text → Text → List EnvVar → Text
name_in var default [] = default
name_in var default (env ∷ envs) =
    name_in var (if text_eq env.name var then env.value else default) envs

-- UseReverseProxySecret
unfoldable pub use_secret_in : Bool → List EnvVar → Bool
use_secret_in uses [] = uses
use_secret_in uses (env ∷ envs) =
    let unchanged = use_secret_in uses envs in
    if text_eq env.name (codes "X_CSI_REVPROXY_USE_SECRET")
    then elim (parse_bool env.value) [ none ↦ false | some b ↦ use_secret_in b envs ]
    else unchanged

unfoldable pub use_reverse_proxy_secret : Csm → Bool
use_reverse_proxy_secret cr = use_secret_in false (common_envs cr.spec.driver.common)

abbrev pub first_or_no_envs : List ContainerTemplate → List EnvVar
first_or_no_envs [] = []
first_or_no_envs (c ∷ cs) = c.envs

module _ {W : Type 0} where
  unfoldable pub authorization_server_precheck :
      SecretReader W → OperatorConfig → Module → Csm → Exec W (Unit {0})
  authorization_server_precheck get op auth cr = lift (get_version cr op) >>= λ version.
      lift (check_version authorization version op)
      >> lift (
          wrap (codes "error checking authorization version")
            (min_version_check (codes "v2.5.0") version))
      >>= λ is_v25.
          lift (check_gateway is_v25 auth)
          >> (if has_config_provider auth.components
              then pure tt
              else find_secrets get cr.namespace (codes "karavi-config-secret" ∷ []))

  -- The checks that two modules share: the driver, and the version.
  unfoldable pub observability_precheck : OperatorConfig → Module → Csm → Exec W (Unit {0})
  observability_precheck op m cr =
      lift (check_supported_driver observability_supported_drivers cr)
      >> lift (check_config_version observability m op)

  unfoldable pub resiliency_precheck : OperatorConfig → Module → Csm → Exec W (Unit {0})
  resiliency_precheck op m cr =
      lift (check_supported_driver resiliency_supported_drivers cr)
      >> lift (check_config_version resiliency m op)

  -- Behind the module's own checks, those of three drivers run once more.
  unfoldable pub replication_precheck :
      SecretReader W → Yaml → OperatorConfig → Module → Csm → Exec W (Unit {0})
  replication_precheck get yaml op m cr =
      let t = cr.spec.driver.csi_driver_type in
      lift (check_supported_driver replication_supported_drivers cr)
      >> lift (check_config_version replication m op)
      >> (if text_eq t power_scale
          then wrapping (codes "failed powerscale validation") (precheck_power_scale get op cr)
          else if text_eq t power_flex
          then wrapping (codes "failed powerflex validation") (precheck_power_flex get yaml op cr)
          else if text_eq t power_store
          then wrapping (codes "failed powerstore validation") (precheck_power_store get op cr)
          else pure tt)

  -- The second reader is that of config maps. An empty list of components counts as nil; one
  -- that is not nil would panic.
  unfoldable pub reverse_proxy_precheck :
      SecretReader W → SecretReader W → OperatorConfig → Module → Csm → Exec W (Unit {0})
  reverse_proxy_precheck get get_config_map op m cr =
      let envs = first_or_no_envs m.components in
      lift (check_supported_driver reverseproxy_supported_drivers cr)
      >> lift (check_config_version reverse_proxy m op)
      >> find_secrets get cr.namespace
          (name_in (codes "X_CSI_REVPROXY_TLS_SECRET") (codes "csirevproxy-tls-secret") envs ∷ [])
      >> (if use_reverse_proxy_secret cr
          then pure tt
          else find_secrets get_config_map cr.namespace (
              name_in (codes "X_CSI_CONFIG_MAP_NAME") (codes "powermax-reverseproxy-config") envs
              ∷ []))
