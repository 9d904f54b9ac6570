-- ===== src/Drivers/Prechecks.antt =====
-- The prechecks of the six drivers, and the reads of secrets: `PrecheckPowerFlex`, `PrecheckPowerScale`,
-- `PrecheckUnity`, `PrecheckPowerStore`, `PrecheckPowerMax` and `PrecheckCosi` of pkg/drivers, and
-- `GetSecret` of pkg/operatorutils. The calls of package log are left out.
pub mod Secrets
pub mod Flex
use csm_operator.Prelude.{
  ℕ, ◌&&◌, Bool, true, false, Option, none, some, List, [], ◌∷◌, ◌++◌, if◌then◌else◌, ltb, any, not,
  length, Result, ok, err, Err, get_or,
}
use csm_operator.Prelude.Text.{byte_length, Text, codes, text_eq, is_empty, strip_prefix?}
use csm_operator.Prelude.Dict.{Dict, lookup}
use csm_operator.Exec.{Exec, ◌>>=◌, ◌>>◌, pure, raise, lift, wrapping, attempt}
use csm_operator.Csm.{
  Csm, Driver, Module, DriverMetrics, ContainerTemplate, authorization, replication, reverse_proxy,
  power_flex, power_max, power_scale, power_store, unity, cosi,
}
use csm_operator.Files.{OperatorConfig, ComponentType}
use csm_operator.Upgrade.{get_version}
use csm_operator.Objects.{is_not_found}
use csm_operator.Drivers.Arrays.{Yaml, mdm_of_config, zones_of_config}
use csm_operator.Drivers.Certificates.{power_scale_secrets, unity_secrets, power_store_secrets}

-- The call `client.Get` on a secret of a namespace: its data.
abbrev pub SecretReader : Type 0 → Type 0
SecretReader W = Text → Text → Exec W (Dict Text)

abbrev pub is_missing {ℓ} : {A : Type ℓ} → Result A → Bool
is_missing (ok a) = false
is_missing (err e) = is_not_found e

-- The os.Stat of the driver's upgrade-path.yaml; the folder, and the name in the message.
abbrev pub check_supported : OperatorConfig → Text → Text → Text → Result (Unit {0})
check_supported op folder name version =
    if op.has_upgrade_path (ComponentType.driver_type folder) version
    then ok tt
    else err (Err.message (name ++ b' ' ∷ version ++ codes " not supported"))

-- isModuleEnabled
unfoldable pub is_module_enabled_in : List Module → Text → Bool
is_module_enabled_in modules name = any (λ m. text_eq m.name name && m.enabled) modules

module _ {W : Type 0} where
  -- One secret after another. An error that is not `NotFound` is only logged.
  unfoldable pub find_secrets : SecretReader W → Text → List Text → Exec W (Unit {0})
  find_secrets get namespace [] = pure tt
  find_secrets get namespace (name ∷ names) =
      let rest = find_secrets get namespace names in
      attempt (get namespace name) >>= λ r.
      if is_missing r then raise (Err.message (codes "failed to find secret " ++ name)) else rest

  -- GetSecret: the secret is empty where the call fails with another error.
  unfoldable pub get_secret : SecretReader W → Text → Text → Exec W (Dict Text)
  get_secret get namespace name = attempt (get namespace name) >>= λ r. elim r [
    | ok content ↦ pure content
    | err e ↦
        if is_not_found e
        then raise (Err.wrapped (codes "no secrets found or error") e)
        else pure []
  ]

  -- The text under the key "config" of the secret `<name>-config`.
  abbrev pub config_of : SecretReader W → Csm → Exec W Text
  config_of get cr =
      wrapping (codes "reading secret") (get_secret get cr.namespace (cr.name ++ codes "-config"))
      >>= λ content. pure (get_or (lookup content (codes "config")) [])

  unfoldable pub get_mdm_from_secret : SecretReader W → Yaml → Csm → Exec W Text
  get_mdm_from_secret get yaml cr = config_of get cr >>= λ config. lift (mdm_of_config yaml config)

  unfoldable pub validate_zones_in_secret : SecretReader W → Yaml → Csm → Exec W (Unit {0})
  validate_zones_in_secret get yaml cr =
      config_of get cr >>= λ config. lift (zones_of_config yaml config)

  unfoldable pub precheck_power_scale : SecretReader W → OperatorConfig → Csm → Exec W (Unit {0})
  precheck_power_scale get op cr = lift (get_version cr op) >>= λ version.
      lift (check_supported op (codes "powerscale") (codes "powerscale") version)
      >> lift (power_scale_secrets cr)
      >>= find_secrets get cr.namespace

  unfoldable pub precheck_unity : SecretReader W → OperatorConfig → Csm → Exec W (Unit {0})
  precheck_unity get op cr = lift (get_version cr op) >>= λ version.
      lift (check_supported op unity unity version)
      >> lift (unity_secrets cr)
      >>= find_secrets get cr.namespace

  unfoldable pub precheck_power_store : SecretReader W → OperatorConfig → Csm → Exec W (Unit {0})
  precheck_power_store get op cr = lift (get_version cr op) >>= λ version.
      lift (check_supported op power_store power_store version)
      >> lift (power_store_secrets cr)
      >>= find_secrets get cr.namespace

-- The value behind the first argument with the prefix, of one sidecar; `none` where there is none.
unfoldable pub prefix_of_args : List Text → Option Text
prefix_of_args [] = none
prefix_of_args (a ∷ args) = elim (strip_prefix? (codes "--volume-name-prefix=") a) [
  | none ↦ prefix_of_args args
  | some value ↦ some value
]

-- getVolumeNamePrefix
unfoldable pub get_volume_name_prefix : List ContainerTemplate → Text
get_volume_name_prefix [] = []
get_volume_name_prefix (sc ∷ rest) =
    let behind = get_volume_name_prefix rest in
    if text_eq sc.name (codes "provisioner") then get_or (prefix_of_args sc.args) behind else behind

-- The volume names of PowerFlex, with both modules.
unfoldable pub check_prefix : Csm → Result (Unit {0})
check_prefix cr =
    if is_module_enabled_in cr.spec.modules authorization
      && is_module_enabled_in cr.spec.modules replication
      && ltb 5 (byte_length (get_volume_name_prefix cr.spec.driver.side_cars))
    then err (Err.message (codes "volume name prefix"))
    else ok tt

-- isDriverMetricsTLSEnabled
unfoldable pub is_driver_metrics_tls_enabled : Csm → Bool
is_driver_metrics_tls_enabled cr = elim cr.spec.driver.metrics [
  | none ↦ false
  | some m ↦ m.enabled && not (is_empty m.tls_cert_secret)
]

abbrev pub metrics_secrets : Csm → List Text
metrics_secrets cr = elim cr.spec.driver.metrics [
  | none ↦ []
  | some m ↦ if is_driver_metrics_tls_enabled cr then m.tls_cert_secret ∷ [] else []
]

-- The first module of this type is switched on, and marked for removal.
unfoldable pub enable_reverse_proxy : List Module → List Module
enable_reverse_proxy [] = []
enable_reverse_proxy (m ∷ ms) =
    let rest = enable_reverse_proxy ms in
    if text_eq m.name reverse_proxy
    then record m { enabled = true; force_remove_module = true } ∷ ms
    else m ∷ rest

module _ {W : Type 0} where
  unfoldable pub precheck_power_flex :
      SecretReader W → Yaml → OperatorConfig → Csm → Exec W (Unit {0})
  precheck_power_flex get yaml op cr =
      lift (check_prefix cr) >> lift (get_version cr op) >>= λ version.
      lift (check_supported op power_flex (codes "vxflexos") version)
      >> get_mdm_from_secret get yaml cr
      >> find_secrets get cr.namespace (metrics_secrets cr)

  unfoldable pub precheck_power_max : SecretReader W → OperatorConfig → Csm → Exec W Csm
  precheck_power_max get op cr = lift (get_version cr op) >>= λ version.
      lift (check_supported op power_max power_max version)
      >> find_secrets get cr.namespace (
          (if is_empty cr.spec.driver.auth_secret
            then cr.name ++ codes "-creds"
            else cr.spec.driver.auth_secret)
          ∷ [])
      >> pure
          (record cr { spec = record cr.spec { modules = enable_reverse_proxy cr.spec.modules } })

  unfoldable pub precheck_cosi : SecretReader W → OperatorConfig → Csm → Exec W (Unit {0})
  precheck_cosi get op cr =
      wrapping (codes "getting COSI version") (lift (get_version cr op)) >>= λ version.
      lift (check_supported op cosi cosi version)
      >> wrapping (codes "reading secret")
          (get_secret get cr.namespace (cr.name ++ codes "-config"))
      >> pure tt

  -- The cases of the switch in `PreChecks`; the last is not reached for any other type.
  unfoldable pub driver_precheck : SecretReader W → Yaml → OperatorConfig → Csm → Exec W Csm
  driver_precheck get yaml op cr =
      let t = cr.spec.driver.csi_driver_type in
      if text_eq t power_scale
      then (precheck_power_scale get op cr >> pure cr)
      else if text_eq t power_flex
      then (precheck_power_flex get yaml op cr >> pure cr)
      else if text_eq t power_store
      then (precheck_power_store get op cr >> pure cr)
      else if text_eq t unity
      then (precheck_unity get op cr >> pure cr)
      else if text_eq t power_max
      then precheck_power_max get op cr
      else if text_eq t cosi
      then (precheck_cosi get op cr >> pure cr)
      else pure cr
