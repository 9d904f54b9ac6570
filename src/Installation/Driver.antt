-- ===== src/Installation/Driver.antt =====
-- A driver's own objects: the part of `SyncCSM` that brings them into a cluster, `getDriverConfig` and
-- `removeDriverFromCluster`.
pub mod Installed
pub mod Removed
pub mod Roundtrip
use csm_operator.Prelude.{
  Bool, true, false, not, ◌&&◌, ◌||◌, Option, none, some, List, [], ◌∷◌, if◌then◌else◌, get_or,
  Result, ok, err, Err,
}
use csm_operator.Prelude.Text.{Text, codes, text_eq, is_empty}
use csm_operator.Exec.{Exec, ◌>>=◌, ◌>>◌, pure, raise, attempt, wrapping}
use csm_operator.Csm.{Csm, cosi, power_scale, power_scale_name}
use csm_operator.Images.{VersionSpec}
use csm_operator.Objects.{Key, Object, ObjectClient}
use csm_operator.Objects.Apply.{unless_missing, delete_object}
use csm_operator.Objects.Sync.{
  sync_config_map, sync_csi_driver, sync_cluster_role, sync_role, sync_cluster_role_bindings,
  sync_role_bindings, sync_service_account, sync_deployment, sync_daemonset,
}
use csm_operator.Installation.{
  RbacYaml, ControllerYaml, NodeYaml, DriverConfig, Components, through, when,
}

-- PowerScale's folder has its own name.
unfoldable pub driver_folder : Text → Text
driver_folder t = if text_eq t power_scale then power_scale_name else t

-- The CSIDriver and the node's objects, which a Cosi driver does not have.
unfoldable pub get_node_side :
    {W : Type 0}
    → Components W
    → Csm
    → Text
    → VersionSpec
    → Exec W (Option Object × Option NodeYaml)
get_node_side parts cr t matched =
    if text_eq t cosi
    then pure (none, none)
    else (wrapping (codes "getting CSIDriver") (parts.get_csi_driver cr t) >>= λ driver.
        wrapping (codes "getting node") (parts.get_node cr t matched) >>= λ node.
        pure (some driver, some node))

unfoldable pub get_driver_config :
    {W : Type 0} → Components W → Csm → VersionSpec → Exec W (Option DriverConfig)
get_driver_config parts cr matched =
    let t = driver_folder cr.spec.driver.csi_driver_type in
    if is_empty cr.spec.driver.csi_driver_type
    then pure none
    else (get_node_side parts cr t matched >>= λ side.
        wrapping (codes "getting configMap") (parts.get_config_map cr t) >>= λ config_map.
        wrapping (codes "getting controller") (parts.get_controller cr t matched) >>= λ controller.
        pure (
          some (record {
            driver = side.0;
            config_map = some config_map;
            node = side.1;
            controller = some controller;
          })))

-- Calls one behind the other, up to the first error.
unfoldable pub in_order : {W : Type 0} → List (Exec W (Unit {0})) → Exec W (Unit {0})
in_order [] = pure tt
in_order (m ∷ ms) = m >> in_order ms

-- The branch of `SyncCSM` for a Cosi driver.
unfoldable pub sync_cosi :
    {W : Type 0} → ObjectClient W → Text → Object → ControllerYaml → Exec W (Unit {0})
sync_cosi c csm_name config_map controller = in_order (
    sync_service_account c controller.rbac.service_account
    ∷ sync_cluster_role c controller.rbac.cluster_role
    ∷ sync_cluster_role_bindings c controller.rbac.cluster_role_binding
    ∷ sync_config_map c config_map
    ∷ sync_deployment c csm_name controller.deployment
    ∷ [])

-- The other drivers: from the service accounts to the deployment.
unfoldable pub sync_driver_objects :
    {W : Type 0}
    → ObjectClient W
    → Text
    → Object
    → Object
    → NodeYaml
    → ControllerYaml
    → Exec W (Unit {0})
sync_driver_objects c csm_name driver config_map node controller = in_order (
    sync_service_account c node.rbac.service_account
    ∷ sync_service_account c controller.rbac.service_account
    ∷ sync_cluster_role c node.rbac.cluster_role
    ∷ sync_cluster_role c controller.rbac.cluster_role
    ∷ sync_cluster_role_bindings c node.rbac.cluster_role_binding
    ∷ sync_cluster_role_bindings c controller.rbac.cluster_role_binding
    ∷ sync_role c node.rbac.role
    ∷ sync_role c controller.rbac.role
    ∷ sync_role_bindings c node.rbac.role_binding
    ∷ sync_role_bindings c controller.rbac.role_binding
    ∷ sync_csi_driver c driver
    ∷ sync_config_map c config_map
    ∷ sync_deployment c csm_name controller.deployment
    ∷ [])

-- The step for disaster recovery stands between the deployment and the daemon set.
unfoldable pub sync_driver :
    {W : Type 0}
    → ObjectClient W
    → Text
    → Exec W (Unit {0})
    → Object
    → Object
    → NodeYaml
    → ControllerYaml
    → Exec W (Unit {0})
sync_driver c csm_name disaster_recovery driver config_map node controller =
    sync_driver_objects c csm_name driver config_map node controller
    >> disaster_recovery
    >> sync_daemonset c csm_name node.daemon_set

unfoldable pub delete_rbac : {W : Type 0} → ObjectClient W → RbacYaml → Exec W (Unit {0})
delete_rbac c r = in_order (
    delete_object c r.service_account.key
    ∷ delete_object c r.cluster_role.key
    ∷ delete_object c r.cluster_role_binding.key
    ∷ delete_object c r.role.key
    ∷ delete_object c r.role_binding.key
    ∷ [])

-- An object that cannot be read, for whatever reason, is passed over.
unfoldable pub delete_readable :
    {W : Type 0} → ObjectClient W → Key → Result Object → Exec W (Unit {0})
delete_readable c k (ok o) = attempt (c.delete k) >>= unless_missing
delete_readable c k (err e) = pure tt

unfoldable pub delete_workload : {W : Type 0} → ObjectClient W → Key → Exec W (Unit {0})
delete_workload c k = attempt (c.get k) >>= delete_readable c k

-- `if p != nil { call }`
unfoldable pub for_some {ℓ} :
    {W : Type 0} {A : Type ℓ} → Option A → (A → Exec W (Unit {0})) → Exec W (Unit {0})
for_some none f = pure tt
for_some (some a) f = f a

unfoldable pub remove_driver_from_cluster :
    {W : Type 0} → ObjectClient W → DriverConfig → Exec W (Unit {0})
remove_driver_from_cluster c config = in_order (
    for_some config.node (λ n. delete_rbac c n.rbac)
    ∷ for_some config.controller (λ n. delete_rbac c n.rbac)
    ∷ for_some config.config_map (λ o. delete_object c o.key)
    ∷ for_some config.driver (λ o. delete_object c o.key)
    ∷ for_some config.node (λ n. delete_workload c n.daemon_set.key)
    ∷ for_some config.controller (λ n. delete_workload c n.deployment.key)
    ∷ [])
