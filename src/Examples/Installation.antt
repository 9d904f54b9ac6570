-- ===== src/Examples/Installation.antt =====
-- The installation and the removal of a driver over the store of the samples.
use csm_operator.Prelude.{
  Bool, true, false, not, ◌&&◌, ◌||◌, none, some, List, [], ◌∷◌, ◌++◌, map, ◌≡◌, ◌⊎◌, refl, All, ok,
  Err, find,
}
use csm_operator.Prelude.Text.{text_eq, is_empty, Text, codes}
use csm_operator.Prelude.Dict.{insert}
use csm_operator.Exec.{attempt, ◌>>=◌, ◌>>◌, pure, raise, lift}
use csm_operator.Csm.{Csm, no_template, no_csm, no_spec, no_driver, power_store, observability}
use csm_operator.Images.{no_version}
use csm_operator.Objects.{Key, key_eq, Object}
use csm_operator.Objects.Store.{named, has}
use csm_operator.Objects.Apply.{
  unless_missing, delete_found, delete_object, merged, unless_refused, apply_found, apply_object,
  apply_delete_objects,
}
use csm_operator.Objects.Apply.Outcome.{
  Created, Updated, Refused, apply_object-outcome, delete_objects-apply_objects,
}
use csm_operator.Objects.Sync.{
  create_or, create_and_get, sync_config_map, sync_csi_driver, sync_cluster_role, sync_role,
  sync_cluster_role_bindings, sync_role_bindings, sync_service_account, sync_deployment,
  apply_deployment, apply_daemon_set, sync_daemonset,
}
use csm_operator.Installation.{NodeYaml, DriverConfig}
use csm_operator.Installation.Modules.Steps.{
  WebhookWasReady, IsSupported, reconcile_observability-ok,
}
use csm_operator.Installation.Modules.{
  reconcile_observability, components_of, cert_manager_component, enabled_names,
  reconcile_components, reconcile_component, webhook_step, await_webhook, patch_csm_dr_crds,
}
use csm_operator.Csm.Modules.{is_module_component_enabled, is_module_enabled}
use csm_operator.Installation.Driver.{
  sync_driver_objects, delete_readable, delete_workload, delete_rbac, for_some, in_order,
  sync_driver, remove_driver_from_cluster, get_driver_config, get_node_side, driver_folder,
}
use csm_operator.Installation.Driver.Installed.{driver_keys, sync_driver-Changes}
use csm_operator.Installation.Driver.Removed.{
  Unreadable, config_keys, removed_keys, deployment_keys, remove_driver_from_cluster-Removes,
  remove_driver-Unreadable,
}
use csm_operator.Installation.Driver.Roundtrip.{of_some, whole, remove_driver-sync_driver}
use csm_operator.Installation.Removal.{remove_driver, remove_config}
use csm_operator.Installation.Removal.Complete.{definition_keys, remove_driver-Removes}
use csm_operator.Samples.{config, with_modules, observability_module, flex}
use csm_operator.Samples.Store.{
  holds, store, store-IsStore, nothing_blocked, empty_world, full_world, object, node_yaml,
  controller_yaml, csi_driver, params, store-answers,
}
use csm_operator.Samples.Surroundings.{components}
use csm_operator.Upgrade.{get_version}

-- An object that the store refuses to update.
abbrev frozen : Object
frozen = record csi_driver { body = 0 }

abbrev manifest : List Object
manifest = object (codes "A") (codes "a") ∷ object (codes "B") (codes "b") ∷ []

apply_object-outcome_example :
    Created
      (store nothing_blocked)
      holds
      frozen
      full_world
      (apply_object (store nothing_blocked) frozen full_world).1
    ⊎ (Updated
          (store nothing_blocked)
          holds
          frozen
          full_world
          (apply_object (store nothing_blocked) frozen full_world).1
        ⊎ Refused
            (store nothing_blocked)
            holds
            frozen
            full_world
            (apply_object (store nothing_blocked) frozen full_world).1)
unfolding apply_object ◌>>=◌ attempt apply_found unless_refused merged pure
apply_object-outcome_example =
    apply_object-outcome (store nothing_blocked) holds (store-IsStore nothing_blocked) frozen
      full_world refl

delete_objects-apply_objects_example :
    has holds
      ((apply_delete_objects (store nothing_blocked) false manifest
          >> apply_delete_objects (store nothing_blocked) true manifest)
        full_world).1
      csi_driver.key
    ≡ (not (named (map (λ o. o.key) manifest) csi_driver.key)
        && has holds full_world csi_driver.key)
unfolding ◌>>=◌ apply_delete_objects apply_object attempt apply_found unless_refused merged pure
    key_eq text_eq delete_object delete_found unless_missing
delete_objects-apply_objects_example =
    delete_objects-apply_objects (store nothing_blocked) holds (store-IsStore nothing_blocked)
      manifest full_world csi_driver.key refl

sync_driver-Changes_example :
    has holds
      (sync_driver
        (store nothing_blocked)
        (codes "n")
        (pure tt)
        csi_driver
        params
        node_yaml
        controller_yaml
        empty_world).1
      csi_driver.key
    ≡ (key_eq node_yaml.daemon_set.key csi_driver.key
        || (named (driver_keys csi_driver params node_yaml controller_yaml) csi_driver.key
            || has holds empty_world csi_driver.key))
unfolding pure sync_driver ◌>>=◌ sync_driver_objects in_order sync_service_account attempt create_or
    key_eq text_eq sync_cluster_role create_and_get sync_cluster_role_bindings sync_role is_empty
    sync_role_bindings sync_csi_driver sync_config_map raise apply_daemon_set apply_deployment
    sync_daemonset sync_deployment insert
sync_driver-Changes_example =
    sync_driver-Changes (store nothing_blocked) holds (store-IsStore nothing_blocked) (codes "n")
      (λ j b. b) (pure tt) csi_driver params node_yaml controller_yaml (λ w j h. refl) empty_world
      csi_driver.key refl

remove_driver_from_cluster-Removes_example :
    has holds
      (remove_driver_from_cluster
        (store nothing_blocked)
        (whole csi_driver params node_yaml controller_yaml)
        full_world).1
      csi_driver.key
    ≡ (not (named (config_keys (whole csi_driver params node_yaml controller_yaml)) csi_driver.key)
        && has holds full_world csi_driver.key)
unfolding remove_driver_from_cluster in_order ◌>>=◌ for_some delete_rbac delete_object attempt
    delete_found unless_missing pure key_eq text_eq delete_workload delete_readable
remove_driver_from_cluster-Removes_example =
    remove_driver_from_cluster-Removes (store nothing_blocked) holds (store-IsStore nothing_blocked)
      (whole csi_driver params node_yaml controller_yaml) (λ n e. store-answers n.daemon_set.key)
      (λ n e. store-answers n.deployment.key) full_world csi_driver.key refl

-- A daemon set that cannot be read, and other objects that can.
abbrev node_blocked : Key → Bool
node_blocked k = key_eq k node_yaml.daemon_set.key

abbrev only_node : DriverConfig
only_node = record { driver = none; config_map = none; node = some node_yaml; controller = none }

remove_driver-Unreadable_example :
    has holds
      (remove_driver_from_cluster (store node_blocked) only_node full_world).1
      node_yaml.daemon_set.key
    ≡ (not (named (removed_keys only_node [] (deployment_keys only_node)) node_yaml.daemon_set.key)
        && has holds full_world node_yaml.daemon_set.key)
unfolding remove_driver_from_cluster in_order ◌>>=◌ for_some delete_rbac delete_object attempt
    delete_found unless_missing pure raise key_eq text_eq delete_workload delete_readable
remove_driver-Unreadable_example =
    remove_driver-Unreadable (store node_blocked) holds (store-IsStore node_blocked) only_node
      (of_some (λ (n : NodeYaml). Unreadable (store node_blocked) n.daemon_set.key) node_yaml
        (λ w. (Err.external 1, refl, refl)))
      (λ n e. cc) full_world node_yaml.daemon_set.key refl

remove_driver-sync_driver_example :
    has holds
      ((sync_driver
            (store nothing_blocked)
            (codes "n")
            (pure tt)
            csi_driver
            params
            node_yaml
            controller_yaml
          >> remove_driver_from_cluster
              (store nothing_blocked)
              (whole csi_driver params node_yaml controller_yaml))
        empty_world).1
      csi_driver.key
    ≡ (not (named (config_keys (whole csi_driver params node_yaml controller_yaml)) csi_driver.key)
        && has holds empty_world csi_driver.key)
unfolding pure sync_driver ◌>>=◌ sync_driver_objects in_order sync_service_account attempt create_or
    key_eq text_eq sync_cluster_role create_and_get sync_cluster_role_bindings sync_role is_empty
    sync_role_bindings sync_csi_driver sync_config_map raise apply_daemon_set apply_deployment
    sync_daemonset sync_deployment insert remove_driver_from_cluster for_some delete_rbac
    delete_object delete_found unless_missing delete_workload delete_readable
remove_driver-sync_driver_example =
    remove_driver-sync_driver (store nothing_blocked) holds (store-IsStore nothing_blocked)
      (codes "n") (pure tt) csi_driver params node_yaml controller_yaml (λ w j h. refl)
      (store-answers node_yaml.daemon_set.key) (store-answers controller_yaml.deployment.key)
      empty_world csi_driver.key refl

-- A PowerStore driver, whose definitions for disaster recovery are removed with it.
abbrev stored : Csm
stored = record no_csm {
  name = codes "n";
  spec = record no_spec { driver = record no_driver { csi_driver_type = power_store } };
}

abbrev stored_config : DriverConfig
stored_config = whole csi_driver params node_yaml controller_yaml

remove_driver-Removes_example :
    has holds (remove_driver (components nothing_blocked) config stored full_world).1 csi_driver.key
    ≡ (not (
          named
            (config_keys stored_config
              ++ definition_keys stored (object (codes "CRD") (codes "drs") ∷ []))
            csi_driver.key)
        && has holds full_world csi_driver.key)
unfolding pure ◌>>=◌ remove_driver get_driver_config is_module_enabled text_eq is_empty
    get_node_side driver_folder remove_config remove_driver_from_cluster in_order for_some
    delete_rbac delete_object attempt delete_found unless_missing key_eq delete_workload
    delete_readable raise patch_csm_dr_crds lift apply_delete_objects find
remove_driver-Removes_example =
    remove_driver-Removes (components nothing_blocked) config holds (store-IsStore nothing_blocked)
      stored stored_config (object (codes "CRD") (codes "drs") ∷ []) full_world csi_driver.key
      (refl, refl, refl, refl) refl (λ n e. store-answers n.daemon_set.key)
      (λ n e. store-answers n.deployment.key) refl refl

abbrev observed_with_cert_manager : Csm
observed_with_cert_manager =
    with_modules
      (record observability_module {
        components = record no_template { name = cert_manager_component; enabled = some true } ∷ [];
      }
        ∷ [])
      flex

reconcile_observability-ok_example :
    ((comps : List Text) × (components_of
          (components nothing_blocked)
          config
          observed_with_cert_manager
          []
        ≡ ok comps)
      × All IsSupported comps)
    × (◌≡◌ {A = Bool} false false
        → is_module_component_enabled observed_with_cert_manager observability
            cert_manager_component
          ≡ ok true
        → WebhookWasReady (components nothing_blocked) observed_with_cert_manager)
unfolding reconcile_observability ◌>>=◌ lift get_version is_empty components_of is_module_enabled
    text_eq enabled_names is_module_component_enabled reconcile_components reconcile_component pure
    webhook_step await_webhook
reconcile_observability-ok_example =
    reconcile_observability-ok (components nothing_blocked) config false observed_with_cert_manager
      [] no_version full_world refl
