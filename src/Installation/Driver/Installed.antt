-- ===== src/Installation/Driver/Installed.antt =====
-- What a cluster holds behind the installation of a driver's objects.
use csm_operator.Prelude.{ℕ, Bool, ◌||◌, Option, List, [], ◌∷◌, ◌++◌, arith, any}
use csm_operator.Prelude.Text.{Text}
use csm_operator.Exec.{Exec}
use csm_operator.Objects.{Key, key_eq, Object, ObjectClient, IsStore}
use csm_operator.Objects.Store.{named, Adds, Changes, pure-Adds, >>-Adds, >>-Changes}
use csm_operator.Objects.Sync.Adds.{
  named_keys, sync_config_map-Adds, sync_csi_driver-Adds, sync_cluster_role-Adds, sync_role-Adds,
  sync_cluster_role_bindings-Adds, sync_role_bindings-Adds, sync_service_account-Adds,
  sync_deployment-Adds, sync_daemonset-Adds,
}
use csm_operator.Installation.{NodeYaml, ControllerYaml}
use csm_operator.Installation.Driver.{in_order, sync_cosi, sync_driver_objects, sync_driver}

-- The keys of a driver's objects up to its deployment.
abbrev pub driver_keys : Object → Object → NodeYaml → ControllerYaml → List Key
driver_keys driver config_map node controller =
    node.rbac.service_account.key
    ∷ controller.rbac.service_account.key
    ∷ node.rbac.cluster_role.key
    ∷ controller.rbac.cluster_role.key
    ∷ node.rbac.cluster_role_binding.key
    ∷ controller.rbac.cluster_role_binding.key
    ∷ (named_keys node.rbac.role
        ++ (named_keys controller.rbac.role
            ++ (named_keys node.rbac.role_binding
                ++ (named_keys controller.rbac.role_binding
                    ++ (driver.key ∷ config_map.key ∷ controller.deployment.key ∷ [])))))

abbrev pub cosi_keys : Object → ControllerYaml → List Key
cosi_keys config_map controller =
    controller.rbac.service_account.key ∷ controller.rbac.cluster_role.key
    ∷ controller.rbac.cluster_role_binding.key ∷ config_map.key ∷ controller.deployment.key ∷ []

module _ {W : Type 0} (c : ObjectClient W) (holds : W → Key → Option ℕ) (s : IsStore c holds) where
  -- One call in front of others.
  pub ∷-Adds :
      (ks ls : List Key) (m : Exec W (Unit {0})) (ms : List (Exec W (Unit {0})))
      → Adds holds ks m
      → Adds holds ls (in_order ms)
      → Adds holds (ks ++ ls) (in_order (m ∷ ms))
  unfolding in_order
  ∷-Adds ks ls m ms p q = >>-Adds holds ks ls m (in_order ms) p q

  nothing-Adds : Adds holds [] (in_order [])
  unfolding in_order
  nothing-Adds = pure-Adds holds

  pub sync_cosi-Adds :
      (csm_name : Text) (config_map : Object) (controller : ControllerYaml)
      → Adds holds (cosi_keys config_map controller) (sync_cosi c csm_name config_map controller)
  unfolding sync_cosi
  sync_cosi-Adds csm_name config_map controller =
      ∷-Adds _ _ _ _ (sync_service_account-Adds c holds s controller.rbac.service_account) (
        ∷-Adds _ _ _ _ (sync_cluster_role-Adds c holds s controller.rbac.cluster_role) (
          ∷-Adds _ _ _ _
            (sync_cluster_role_bindings-Adds c holds s controller.rbac.cluster_role_binding)
            (∷-Adds _ _ _ _ (sync_config_map-Adds c holds s config_map) (
              ∷-Adds _ _ _ _ (sync_deployment-Adds c holds s csm_name controller.deployment)
                (nothing-Adds)))))

  pub sync_driver_objects-Adds :
      (csm_name : Text) (driver config_map : Object) (node : NodeYaml) (controller : ControllerYaml)
      → Adds holds
          (driver_keys driver config_map node controller)
          (sync_driver_objects c csm_name driver config_map node controller)
  unfolding sync_driver_objects
  sync_driver_objects-Adds csm_name driver config_map node controller =
      ∷-Adds _ _ _ _ (sync_service_account-Adds c holds s node.rbac.service_account) (
        ∷-Adds _ _ _ _ (sync_service_account-Adds c holds s controller.rbac.service_account) (
          ∷-Adds _ _ _ _ (sync_cluster_role-Adds c holds s node.rbac.cluster_role) (
            ∷-Adds _ _ _ _ (sync_cluster_role-Adds c holds s controller.rbac.cluster_role) (
              ∷-Adds _ _ _ _
                (sync_cluster_role_bindings-Adds c holds s node.rbac.cluster_role_binding)
                (∷-Adds _ _ _ _
                  (sync_cluster_role_bindings-Adds c holds s controller.rbac.cluster_role_binding)
                  (∷-Adds _ _ _ _ (sync_role-Adds c holds s node.rbac.role) (
                    ∷-Adds _ _ _ _ (sync_role-Adds c holds s controller.rbac.role) (
                      ∷-Adds _ _ _ _ (sync_role_bindings-Adds c holds s node.rbac.role_binding) (
                        ∷-Adds _ _ _ _
                          (sync_role_bindings-Adds c holds s controller.rbac.role_binding)
                          (∷-Adds _ _ _ _ (sync_csi_driver-Adds c holds s driver) (
                            ∷-Adds _ _ _ _ (sync_config_map-Adds c holds s config_map) (
                              ∷-Adds _ _ _ _
                                (sync_deployment-Adds c holds s csm_name controller.deployment)
                                (nothing-Adds)))))))))))))

  -- Behind the installation of a driver the cluster has the keys of the driver's objects and those
  -- that it had before, as the step for disaster recovery has left them, and no others.
  pub sync_driver-Changes :
      (csm_name : Text) (f : Key → Bool → Bool) (disaster_recovery : Exec W (Unit {0}))
      (driver config_map : Object) (node : NodeYaml) (controller : ControllerYaml)
      → Changes holds f disaster_recovery
      → Changes holds
          (λ j b.
            key_eq node.daemon_set.key j
            || f j (named (driver_keys driver config_map node controller) j || b))
          (sync_driver c csm_name disaster_recovery driver config_map node controller)
  unfolding sync_driver any
  sync_driver-Changes csm_name f dr driver config_map node controller p =
      >>-Changes holds (λ j b. f j (named (driver_keys driver config_map node controller) j || b))
        (λ j b. key_eq node.daemon_set.key j || b) _ _
        (>>-Changes holds (λ j b. named (driver_keys driver config_map node controller) j || b) f _
          _ (sync_driver_objects-Adds csm_name driver config_map node controller) p)
        (λ w j h. ground (arith, sync_daemonset-Adds c holds s csm_name node.daemon_set w j h))
