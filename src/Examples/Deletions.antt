-- ===== src/Examples/Deletions.antt =====
-- The deletion of a resource, with the removal of its driver, at a concrete input.
use csm_operator.Prelude.{true, not, ◌&&◌, some, [], ◌∷◌, ◌++◌, ◌≡◌, refl, ok, find, any}
use csm_operator.Prelude.Text.{codes, text_eq, is_empty}
use csm_operator.Csm.{Csm, no_csm, no_spec, no_driver, power_store, has_finalizer}
use csm_operator.Controller.{Parts, Reconciler, csm_finalizer_name}
use csm_operator.Controller.Deletion.{
  delete_csm, stop_after, clean_up, force_remove, release_driver, remove_modules, remove_finalizer,
}
use csm_operator.Watches.{no_watches}
use csm_operator.Objects.Store.{named, has}
use csm_operator.Exec.{pure, ◌>>=◌, lift, attempt, raise}
use csm_operator.Csm.Modules.{is_module_enabled}
use csm_operator.Installation.{DriverConfig}
use csm_operator.Installation.Driver.{
  get_driver_config, get_node_side, driver_folder, remove_driver_from_cluster, in_order, for_some,
  delete_rbac, delete_workload, delete_readable,
}
use csm_operator.Installation.Driver.Roundtrip.{whole}
use csm_operator.Installation.Driver.Removed.{config_keys}
use csm_operator.Installation.Removal.Complete.{definition_keys}
use csm_operator.Installation.Deletion.{with_installation, delete_csm-Removes}
use csm_operator.Samples.{config}
use csm_operator.Samples.Store.{
  World, holds, store-IsStore, nothing_blocked, full_world, object, node_yaml, controller_yaml,
  csi_driver, params, store-answers,
}
use csm_operator.Samples.Surroundings.{components, world_client}
use csm_operator.Installation.Removal.{remove_driver, remove_config}
use csm_operator.Objects.Apply.{delete_object, delete_found, unless_missing, apply_delete_objects}
use csm_operator.Objects.{key_eq}
use csm_operator.Installation.Modules.{patch_csm_dr_crds}

-- A PowerStore driver that is removed with its resource.
abbrev leaving : Csm
leaving = record no_csm {
  name = codes "n";
  finalizers = csm_finalizer_name ∷ [];
  spec = record no_spec {
    driver = record no_driver { csi_driver_type = power_store; force_remove_driver = some true };
  };
}

abbrev world_parts : Parts World
world_parts = record {
  outside = record { api = world_client; marshal = λ _. ok []; retry_on_conflict = λ f. f };
  driver_precheck = λ cr w. (ok cr, w);
  zone_validation = λ _ w. (ok tt, w);
  module_precheck = λ _ m w. (ok m.components, w);
  validate_custom_registry = λ _. ok tt;
  remove_driver = λ _ w. (ok tt, w);
  remove_module = λ _ w. (ok tt, w);
  sync_csm = λ _ w. (ok tt, w);
  content_watch = λ _ w. (ok tt, w);
}

abbrev world_reconciler : Reconciler World
world_reconciler = record { world = full_world; watches = no_watches; update_count = 0 }

abbrev leaving_config : DriverConfig
leaving_config = whole csi_driver params node_yaml controller_yaml

abbrev all_parts : Parts World
all_parts = with_installation (components nothing_blocked) config world_parts

-- The deletion succeeds.
deleted : (delete_csm all_parts leaving world_reconciler).0 ≡ ok tt
unfolding delete_csm stop_after clean_up ◌>>=◌ pure lift attempt raise force_remove release_driver
    remove_modules remove_finalizer has_finalizer remove_driver get_driver_config is_module_enabled
    text_eq is_empty get_node_side driver_folder remove_config remove_driver_from_cluster in_order
    for_some delete_rbac delete_object delete_found unless_missing key_eq delete_workload
    delete_readable patch_csm_dr_crds apply_delete_objects find any
deleted = refl

delete_csm-Removes_example :
    has holds (delete_csm all_parts leaving world_reconciler).1.world csi_driver.key ≡ (
      not (
        named
          (config_keys leaving_config
            ++ definition_keys leaving (object (codes "CRD") (codes "drs") ∷ []))
          csi_driver.key)
      && has holds full_world csi_driver.key)
unfolding pure ◌>>=◌ get_driver_config is_module_enabled text_eq is_empty get_node_side
    driver_folder find any
delete_csm-Removes_example =
    delete_csm-Removes (components nothing_blocked) config world_parts holds
      (store-IsStore nothing_blocked) (λ x w j. refl) leaving leaving_config
      (object (codes "CRD") (codes "drs") ∷ []) world_reconciler csi_driver.key refl
      (refl, refl, refl, refl) refl refl (λ n e. store-answers n.daemon_set.key)
      (λ n e. store-answers n.deployment.key) refl deleted
