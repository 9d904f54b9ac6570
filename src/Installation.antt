-- ===== src/Installation.antt =====
-- The installation and the removal of a driver and of the modules, of controllers/csm_controller.go,
-- and what it takes from pkg/drivers and pkg/modules.
pub mod Driver
pub mod Modules
pub mod Metrics
pub mod Injection
pub mod Sync
pub mod Removal
pub mod Deletion
use csm_operator.Prelude.{ℕ, Bool, Option, none, some, List, [], Err, Result, if◌then◌else◌}
use csm_operator.Prelude.Text.{Text}
use csm_operator.Exec.{Exec, ◌>>◌, pure, raise}
use csm_operator.Csm.{Csm, DriverMetrics, ServiceMonitorConfig}
use csm_operator.Cluster.{Client}
use csm_operator.Files.{OperatorConfig}
use csm_operator.Images.{VersionSpec}
use csm_operator.Objects.{Object, ObjectClient}

-- RbacYAML
pub record RbacYaml : Type 0 where
  pub service_account : Object
  pub cluster_role : Object
  pub cluster_role_binding : Object
  pub role : Object
  pub role_binding : Object

-- ControllerYAML
pub record ControllerYaml : Type 0 where
  pub deployment : Object
  pub rbac : RbacYaml

-- NodeYAML
pub record NodeYaml : Type 0 where
  pub daemon_set : Object
  pub rbac : RbacYaml

-- DriverConfig; a nil pointer is `none`
pub record DriverConfig : Type 0 where
  pub driver : Option Object
  pub config_map : Option Object
  pub node : Option NodeYaml
  pub controller : Option ControllerYaml

-- The objects that `syncMetricsResources` writes, by the fields that it computes.
pub record MetricsObject : Type 0 where
  pub name : Text
  pub namespace : Text
  pub app : Text
  pub port : ℕ
  pub interval : Text
  pub tls : Option Bool
  pub block_owner_deletion : Bool

-- The changes that pkg/modules and pkg/drivers make to a driver's objects before they are brought into
-- a cluster. Where the Go function changes its argument, this one gives the changed object back.
pub record Injectors (W : Type 0) : Type 0 where
  -- PowerMax
  pub add_reverse_proxy_service_name : Object → Object
  pub mount_power_max_content : Csm → Object → Object
  pub reverse_proxy_inject_deployment : Csm → VersionSpec → Object → Exec W Object
  pub update_power_max_config_map : Csm → Object → Object
  -- PowerFlex: RemoveVolume and RemoveInitVolume, whose errors are dropped
  pub remove_scaleio_volume : Object → Object
  pub remove_sftp_keys : Object → Object
  -- modules; the text is "controller" or "node"
  pub auth_inject_deployment : Csm → Object → Exec W Object
  pub auth_inject_daemonset : Csm → Object → Exec W Object
  pub resiliency_inject_deployment : Csm → VersionSpec → Object → Exec W Object
  pub resiliency_inject_daemonset : Csm → VersionSpec → Object → Exec W Object
  pub resiliency_inject_cluster_role : Csm → Text → Object → Exec W Object
  pub resiliency_inject_role : Csm → Text → Object → Exec W Object
  pub replication_inject_deployment : Csm → VersionSpec → Object → Exec W Object
  pub replication_inject_cluster_role : Csm → Object → Exec W Object

-- The functions of pkg/drivers and pkg/modules that the installation calls, and what it reads of its
-- surroundings. A flag is `isDeleting`.
pub record Components (W : Type 0) : Type 0 where
  pub api : Client W
  pub objects : ObjectClient W
  pub is_open_shift : Bool
  pub is_harvester : Exec W Bool
  pub is_reverse_proxy_sidecar : Bool
  pub resolve_version : Csm → Exec W VersionSpec
  -- pkg/drivers, with the type that names the folder
  pub get_csi_driver : Csm → Text → Exec W Object
  pub get_node : Csm → Text → VersionSpec → Exec W NodeYaml
  pub get_config_map : Csm → Text → Exec W Object
  pub get_controller : Csm → Text → VersionSpec → Exec W ControllerYaml
  pub inject : Injectors W
  -- authorization
  pub auth_crd_deploy : Csm → Exec W (Unit {0})
  pub authorization_server_deployment : Bool → Csm → VersionSpec → Exec W (Unit {0})
  pub install_policies : Bool → Csm → Exec W (Unit {0})
  pub nginx_ingress_controller : Bool → Csm → Exec W (Unit {0})
  pub nginx_ingress_controller_cleanup : Csm → Exec W (Unit {0})
  pub gateway_controller : Bool → Csm → Exec W (Unit {0})
  pub authorization_ingress : Bool → Csm → Exec W (Unit {0})
  pub install_with_certs : Bool → Csm → Exec W (Unit {0})
  -- observability
  pub otel_collector : Bool → Csm → VersionSpec → Exec W (Unit {0})
  pub common_cert_manager : Bool → Csm → VersionSpec → Exec W (Unit {0})
  pub observability_topology : Bool → Csm → VersionSpec → Exec W (Unit {0})
  pub power_scale_metrics : Bool → Csm → Exec W (Unit {0})
  pub power_flex_metrics : Bool → Csm → Exec W (Unit {0})
  pub power_max_metrics : Bool → Csm → Exec W (Unit {0})
  pub power_store_metrics : Bool → Csm → Exec W (Unit {0})
  pub issuer_cert_service_obs : Bool → Csm → Exec W (Unit {0})
  -- replication
  pub replication_crd_deploy : Csm → Exec W (Unit {0})
  pub replication_manager_controller : Bool → Csm → Exec W (Unit {0})
  pub create_replication_configmap : Csm → Exec W (Unit {0})
  pub delete_replication_configmap : Exec W (Unit {0})
  pub delete_replication_crds : Csm → Exec W (Unit {0})
  -- reverse proxy
  pub reverse_proxy_server : Bool → Csm → Exec W (Unit {0})
  pub reverse_proxy_start_service : Bool → Csm → Exec W (Unit {0})
  -- the objects of getCSMDRCRDs, read from the configuration and parsed
  pub csm_dr_crds : Result (List Object)
  -- the encodings of the objects of syncMetricsResources
  pub service_body : MetricsObject → ℕ
  pub service_monitor_body : MetricsObject → ℕ
  -- json.Unmarshal of an annotation, and json.Marshal of the resource
  pub unmarshal : Text → Result Csm
  pub marshal : Csm → Result Text

-- A use of a pointer, which panics at nil.
unfoldable pub through {ℓ κ} :
    {W : Type 0} {A : Type ℓ} {B : Type κ} → Option A → (A → Exec W B) → Exec W B
through none f = raise Err.panic
through (some a) f = f a

-- `if b { call }`
abbrev pub when : {W : Type 0} → Bool → Exec W (Unit {0}) → Exec W (Unit {0})
when b m = if b then m else pure tt
