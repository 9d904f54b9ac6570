-- ===== src/Installation/Sync.antt =====
-- `SyncCSM` of controllers/csm_controller.go with `oldStandAloneModuleCleanup`, and
-- `GetDriverCommonEnv` of pkg/drivers/commonconfig.go.
use csm_operator.Prelude.{
  Bool, true, false, not, ◌&&◌, ◌||◌, Option, none, some, List, [], ◌∷◌, if◌then◌else◌, find,
  get_or, is_some, Result, ok, err, Err,
}
use csm_operator.Prelude.Text.{Text, codes, text_eq, is_empty}
use csm_operator.Prelude.Dict.{Dict, lookup, insert, delete}
use csm_operator.Exec.{Exec, ◌>>=◌, ◌>>◌, pure, raise, lift, attempt, wrapping}
use csm_operator.Csm.{
  Csm, Module, ContainerTemplate, EnvVar, authorization_server, cosi, is_module, no_status,
  observability, power_flex, power_store, replication, reverse_proxy,
}
use csm_operator.Csm.Modules.{is_module_enabled, is_module_component_enabled}
use csm_operator.Files.{OperatorConfig}
use csm_operator.Status.Calculate.{previously_applied_key}
use csm_operator.Images.{VersionSpec, no_version}
use csm_operator.Installation.{DriverConfig, Components, through, when}
use csm_operator.Installation.Driver.{get_driver_config, sync_cosi, sync_driver}
use csm_operator.Installation.Modules.{
  reconcile_observability, reconcile_authorization, reconcile_authorization_crds, apply_csm_dr_crd,
}
use csm_operator.Installation.Injection.{adapt_driver, inject_modules}
use csm_operator.Installation.Metrics.{sync_metrics_resources}
use csm_operator.Installation.Removal.{has_driver_type, reconcile_reverse_proxy_server}

-- The first variable of the name that is not empty, and the default where there is none.
unfoldable pub first_env : Text → Text → List EnvVar → Text
first_env name default [] = default
first_env name default (e ∷ es) =
    if text_eq e.name name && not (is_empty e.value) then e.value else first_env name default es

unfoldable pub get_driver_common_env : Csm → Text → Text → Text
get_driver_common_env cr name default = elim cr.spec.driver.common [
  | none ↦ default
  | some common ↦ first_env name default common.envs
]

-- The flag of the first module for replication.
unfoldable pub replica_enabled : Csm → Bool
replica_enabled cr = elim (find (is_module replication) cr.spec.modules) [
  | none ↦ false
  | some m ↦ m.enabled
]

-- The components that were enabled and no longer are.
unfoldable pub dropped_components : Csm → Csm → List ContainerTemplate → Result (List Text)
dropped_components old new [] = ok []
dropped_components old new (c ∷ cs) =
    let rest = dropped_components old new cs in
    elim (is_module_component_enabled old observability c.name) [
      | err e ↦ err e
      | ok was ↦ elim (is_module_component_enabled new observability c.name) [
        | err e ↦ err e
        | ok is ↦ elim rest [
          | err e ↦ err e
          | ok names ↦ ok (if was && not is then c.name ∷ names else names)
        ]
      ]
    ]

-- Whether observability is on before and behind the change, for the components that it loses.
unfoldable pub components_to_remove : Csm → Csm → Option Module → Option Module → Result (List Text)
components_to_remove old new none n = ok []
components_to_remove old new (some m) none = ok []
components_to_remove old new (some m) (some n) = dropped_components old new m.components

abbrev pub is_nonempty {ℓ} : {A : Type ℓ} → List A → Bool
is_nonempty [] = false
is_nonempty (x ∷ xs) = true

-- The resource as it is written into the annotation: without what the server adds.
unfoldable pub to_record : Csm → Dict Text → Csm
to_record cr annotations = record cr {
  annotations = some (
      delete (delete annotations previously_applied_key)
        (codes "kubectl.kubernetes.io/last-applied-configuration"));
  status = no_status;
}

module _ {W : Type 0} (parts : Components W) (op : OperatorConfig) where
  -- A failure to delete the definitions is only logged.
  unfoldable pub remove_old_replication : Csm → Exec W (Unit {0})
  remove_old_replication old =
      parts.replication_manager_controller true old
      >> (attempt (parts.delete_replication_crds old) >>= λ _. pure tt)

  unfoldable pub remove_old_observability : Csm → Csm → Exec W (Unit {0})
  remove_old_observability old new =
      let before = is_module_enabled old observability in
      let behind = is_module_enabled new observability in
      lift (components_to_remove old new before behind) >>= λ components.
      when (is_some before && not (is_some behind) || is_nonempty components)
        (reconcile_observability parts op true old components no_version)

  unfoldable pub remove_old_modules : Csm → Result Csm → Exec W (Unit {0})
  remove_old_modules new (err e) =
      raise (Err.wrapped (codes "error unmarshalling old annotation") e)
  remove_old_modules new (ok old) =
      when (replica_enabled old && not (replica_enabled new)) (remove_old_replication old)
      >> remove_old_observability old new

  unfoldable pub clean_up_previous : Csm → Option Text → Exec W (Unit {0})
  clean_up_previous new none = pure tt
  clean_up_previous new (some text) =
      if is_empty text then pure tt else remove_old_modules new (parts.unmarshal text)

  -- A nil map of annotations is read, but cannot be written.
  unfoldable pub record_applied : Csm → Option (Dict Text) → Exec W Csm
  record_applied new none =
      wrapping (codes "error marshalling CR to annotation")
        (lift (parts.marshal (to_record new [])))
      >>= λ text. raise Err.panic
  record_applied new (some annotations) =
      wrapping (codes "error marshalling CR to annotation")
        (lift (parts.marshal (to_record new annotations)))
      >>= λ text.
          parts.api.update_csm
            (record new { annotations = some (insert annotations previously_applied_key text) })

  -- The resource is given back as the server holds it then.
  unfoldable pub old_stand_alone_module_cleanup : Csm → Exec W Csm
  old_stand_alone_module_cleanup new =
      clean_up_previous new (lookup (get_or new.annotations []) previously_applied_key) >>= λ _.
      record_applied new new.annotations

  unfoldable pub disaster_recovery : Csm → Exec W (Unit {0})
  disaster_recovery cr =
      when
        (has_driver_type cr power_store
          && text_eq (get_driver_common_env cr (codes "X_CSM_DR_ENABLED") (codes "true"))
              (codes "true"))
        (apply_csm_dr_crd parts op cr false)

  unfoldable pub sync_replication : Csm → Exec W (Unit {0})
  sync_replication cr =
      wrapping (codes "failed to deploy replication controller")
        (parts.replication_manager_controller false cr)
      >> wrapping (codes "injecting replication into replication configmap")
          (parts.create_replication_configmap cr)

  -- The objects go into the cluster, and behind them the modules that run beside the driver.
  unfoldable pub sync_config : Csm → VersionSpec → DriverConfig → Exec W (Unit {0})
  sync_config cr matched config =
      if has_driver_type cr cosi
      then through config.controller (λ controller.
        through config.config_map
          (λ config_map. sync_cosi parts.objects cr.name config_map controller))
      else through config.node (λ node. through config.controller (λ controller.
        through config.driver (λ driver. through config.config_map (λ config_map.
          sync_driver parts.objects cr.name (disaster_recovery cr) driver config_map node
            controller))))
        >> when (is_some (is_module_enabled cr replication)) (sync_replication cr)
        >> when (is_some (is_module_enabled cr observability))
            (reconcile_observability parts op false cr [] matched)
        >> when (has_driver_type cr power_flex) (sync_metrics_resources parts false cr)

  -- Behind `getDriverConfig`: a resource without a driver is done.
  unfoldable pub install_config : Csm → VersionSpec → Option DriverConfig → Exec W (Unit {0})
  install_config cr matched none = pure tt
  install_config cr matched (some config) = old_stand_alone_module_cleanup cr >>= λ new.
      adapt_driver parts new matched config >>= λ adapted.
      inject_modules parts new matched new.spec.modules adapted >>= λ injected.
      sync_config new matched injected

  unfoldable pub sync_authorization : Csm → VersionSpec → Exec W (Unit {0})
  sync_authorization cr matched =
      wrapping (codes "failed to deploy authorization proxy server")
        (reconcile_authorization_crds parts op cr)
      >> wrapping (codes "failed to deploy authorization proxy server")
          (reconcile_authorization parts op false cr matched)

  unfoldable pub sync_drivers_and_modules : Csm → VersionSpec → Exec W (Unit {0})
  sync_drivers_and_modules cr matched =
      when (is_some (is_module_enabled cr reverse_proxy) && not parts.is_reverse_proxy_sidecar) (
        wrapping (codes "failed to deploy reverseproxy proxy server")
          (reconcile_reverse_proxy_server parts op false cr))
      >> when (is_some (is_module_enabled cr replication)) (
          wrapping (codes "failed to deploy replication CRDs") (
            wrapping (codes "unable to reconcile replication CRDs")
              (parts.replication_crd_deploy cr)))
      >> (get_driver_config parts cr matched >>= install_config cr matched)

  unfoldable pub sync_csm : Csm → Exec W (Unit {0})
  sync_csm cr =
      (if is_empty cr.spec.version then pure no_version else parts.resolve_version cr)
      >>= λ matched.
          if is_some (is_module_enabled cr authorization_server)
          then sync_authorization cr matched
          else sync_drivers_and_modules cr matched
