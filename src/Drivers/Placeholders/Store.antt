-- ===== src/Drivers/Placeholders/Store.antt =====
-- `ModifyPowerstoreCR` of pkg/drivers/powerstore.go. The resource is passed by value, but its node is
-- behind a pointer: what the function writes there is seen by the caller.
pub mod Again
use csm_operator.Prelude.{
  true, false, not, ◌&&◌, none, some, List, [], ◌∷◌, ◌++◌, if◌then◌else◌, find, Option, map, Bool,
}
use csm_operator.Prelude.Text.{Text, codes, text_eq, is_empty}
use csm_operator.Csm.{Csm, EnvVar, authorization, is_module}
use csm_operator.Installation.Sync.{get_driver_common_env}
use csm_operator.Drivers.Certificates.{common_envs}
use csm_operator.Drivers.Placeholders.{
  Change, substitute, node_envs_of, common_value, node_value, controller_value, flag,
  health_monitor, csm_namespace, storage_capacity_change, reclamation_changes, by_type,
}

abbrev pub auth_name : Text
auth_name = codes "X_CSM_AUTH_ENABLED"

-- The value of the last variable of the name that has one.
unfoldable pub last_filled_env : Text → Text → List EnvVar → Text
last_filled_env name default [] = default
last_filled_env name default (e ∷ es) =
    last_filled_env name
      (if text_eq e.name name && not (is_empty e.value) then e.value else default) es

abbrev pub filled_value : Csm → Text → Text → Text
filled_value cr name default = last_filled_env name default (common_envs cr.spec.driver.common)

-- The flag of the first authorization module, empty without one.
unfoldable pub auth_enabled : Csm → Text
auth_enabled cr = elim (find (is_module authorization) cr.spec.modules) [
  | none ↦ []
  | some m ↦ flag m.enabled
]

-- The first variable of the name gets the value; it is added if there is none.
unfoldable pub set_auth : Text → List EnvVar → List EnvVar
set_auth value [] = record { name = auth_name; value = value } ∷ []
set_auth value (e ∷ es) =
    let rest = set_auth value es in
    if text_eq e.name auth_name then record e { value = value } ∷ es else e ∷ rest

-- The caller's resource behind the call. A node that was not there is made in the copy only; one
-- without variables gets a list.
unfoldable pub with_auth : Csm → Csm
with_auth cr = elim (find (is_module authorization) cr.spec.modules) [
  | none ↦ cr
  | some m ↦
      if cr.spec.driver.has_node
      then record cr {
        spec = record cr.spec {
          driver = record cr.spec.driver {
            node_envs = some (set_auth (flag m.enabled) (node_envs_of cr));
          };
        };
      }
      else cr
]

-- What the controller's and the node's files have in common.
unfoldable pub power_store_shared_changes : Csm → List Change
power_store_shared_changes cr =
    (
      codes "<X_CSI_POWERSTORE_API_TIMEOUT>",
      filled_value cr (codes "X_CSI_POWERSTORE_API_TIMEOUT") (codes "120s"),
    )
    ∷ (
      codes "<X_CSI_PODMON_ARRAY_CONNECTIVITY_TIMEOUT>",
      filled_value cr (codes "X_CSI_PODMON_ARRAY_CONNECTIVITY_TIMEOUT") (codes "10s"),
    )
    ∷ (codes "<X_CSI_NFS_CLIENT_PORT>", codes "unused")
    ∷ (codes "<X_CSI_NFS_SERVER_PORT>", codes "unused")
    ∷ (codes "<X_CSI_NFS_EXPORT_DIRECTORY>", codes "/var/lib/dell/nfs")
    ∷ (
      codes "<X_CSM_DR_ENABLED>",
      get_driver_common_env cr (codes "X_CSM_DR_ENABLED") (codes "true"),
    )
    ∷ (
      codes "<X_CSM_DR_BIND_PORT>",
      get_driver_common_env cr (codes "X_CSM_DR_BIND_PORT") (codes "8082"),
    )
    ∷ []

unfoldable pub power_store_node_changes : Csm → List Change
power_store_node_changes cr =
    (
      codes "<X_CSI_POWERSTORE_NODE_NAME_PREFIX>",
      common_value cr (codes "X_CSI_POWERSTORE_NODE_NAME_PREFIX") [],
    )
    ∷ (
      codes "<X_CSI_FC_PORTS_FILTER_FILE_PATH>",
      common_value cr (codes "X_CSI_FC_PORTS_FILTER_FILE_PATH") [],
    )
    ∷ (
      codes "<X_CSI_POWERSTORE_ENABLE_CHAP>",
      node_value cr (codes "X_CSI_POWERSTORE_ENABLE_CHAP") [],
    )
    ∷ (codes "<X_CSI_HEALTH_MONITOR_ENABLED>", node_value cr health_monitor [])
    ∷ (
      codes "<X_CSI_POWERSTORE_MAX_VOLUMES_PER_NODE>",
      node_value cr (codes "X_CSI_POWERSTORE_MAX_VOLUMES_PER_NODE") [],
    )
    ∷ (
      codes "<X_CSI_VOLUME_DISCONNECT_MAX_RETRIES>",
      node_value cr (codes "X_CSI_VOLUME_DISCONNECT_MAX_RETRIES") (codes "5"),
    )
    ∷ (
      codes "<X_CSI_VOLUME_DISCONNECT_RETRY_INTERVAL>",
      node_value cr (codes "X_CSI_VOLUME_DISCONNECT_RETRY_INTERVAL") (codes "5s"),
    )
    ∷ (
      codes "<X_CSI_VOLUME_DISCONNECT_TIMEOUT_SECONDS>",
      node_value cr (codes "X_CSI_VOLUME_DISCONNECT_TIMEOUT_SECONDS") (codes "120s"),
    )
    ∷ csm_namespace cr
    ∷ (codes "<GOPOWERSTORE_DEBUG>", common_value cr (codes "GOPOWERSTORE_DEBUG") (codes "false"))
    ∷ (codes "<X_CSM_AUTH_ENABLED>", auth_enabled cr)
    ∷ (power_store_shared_changes cr ++ reclamation_changes cr)

unfoldable pub power_store_controller_changes : Csm → List Change
power_store_controller_changes cr =
    (codes "<X_CSI_NFS_ACLS>", controller_value cr (codes "X_CSI_NFS_ACLS") [])
    ∷ (codes "<X_CSI_HEALTH_MONITOR_ENABLED>", controller_value cr health_monitor [])
    ∷ (
      codes "<X_CSI_POWERSTORE_EXTERNAL_ACCESS>",
      controller_value cr (codes "X_CSI_POWERSTORE_EXTERNAL_ACCESS") [],
    )
    ∷ (
      codes "<X_CSI_POWERSTORE_EXCLUSIVE_ACCESS>",
      controller_value cr (codes "X_CSI_POWERSTORE_EXCLUSIVE_ACCESS") (codes "false"),
    )
    ∷ csm_namespace cr
    ∷ (codes "<GOPOWERSTORE_DEBUG>", common_value cr (codes "GOPOWERSTORE_DEBUG") (codes "false"))
    ∷ power_store_shared_changes cr

abbrev pub power_store_changes : Csm → Text → List Change
power_store_changes cr file =
    by_type file (power_store_controller_changes cr) (power_store_node_changes cr)
      (storage_capacity_change (flag cr.spec.driver.storage_capacity))

-- The text, and the caller's resource behind the call.
unfoldable pub modify_powerstore_cr : Text → Csm → Text → Text × Csm
modify_powerstore_cr yaml cr file = (
  substitute (power_store_changes cr file) yaml,
  if text_eq file (codes "Node") then with_auth cr else cr,
)
