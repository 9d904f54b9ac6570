-- ===== src/Csm.antt =====
-- The custom resource: api/v1/types.go and api/v1/csm_types.go. The fields are those that the
-- modelled code reads or writes. A pointer field is an `Option`, a nil map is `none`.
pub mod Modules
pub mod Components
use csm_operator.Prelude.{
  ℕ, String, Bool, true, false, Option, none, some, List, [], ◌∷◌, ◌++◌, if◌then◌else◌, any, find,
  get_or, is_some,
}
use csm_operator.Prelude.Text.{Text, codes, text_eq}
use csm_operator.Prelude.Dict.{Dict}

-- corev1.EnvVar, without its `ValueFrom`, which the operator does not read in a custom resource
pub record EnvVar : Type 0 where
  pub name : Text
  pub value : Text

-- RedisSecretProviderClass, without its paths in Conjur
pub record RedisProvider : Type 0 where
  pub class_name : Text
  pub secret_name : Text
  pub username_key : Text
  pub password_key : Text

pub record ContainerTemplate : Type 0 where
  pub name : Text
  pub enabled : Option Bool
  pub image : Text
  pub image_pull_policy : Text
  pub args : List Text
  pub envs : List EnvVar
  -- len(ProxyServerIngress) > 0, and Gateway != nil
  pub has_ingress : Bool
  pub has_gateway : Bool
  pub redis_username : Text
  pub redis_password : Text
  pub redis_providers : List RedisProvider
  -- the SecretProviderClassName of each ConfigSecretProviderClass
  pub config_providers : List Text

pub record Module : Type 0 where
  pub name : Text
  pub enabled : Bool
  pub config_version : Text
  pub components : List ContainerTemplate
  pub force_remove_module : Bool
  pub init_container : List ContainerTemplate

-- MetricsServiceMonitorConfig
pub record ServiceMonitorConfig : Type 0 where
  pub enabled : Bool
  pub interval : Text
  pub insecure_skip_verify : Bool

-- GatewayMonitoringConfig
pub record GatewayMonitoring : Type 0 where
  pub enabled : Bool
  pub leader_election_enabled : Option Bool
  pub poll_interval : Text

-- The port is not negative in what the API server admits.
pub record DriverMetrics : Type 0 where
  pub enabled : Bool
  pub port : ℕ
  pub tls_cert_secret : Text
  pub service_monitor : Option ServiceMonitorConfig
  pub gateway_monitoring : Option GatewayMonitoring

pub record Driver : Type 0 where
  pub csi_driver_type : Text
  pub config_version : Text
  pub replicas : ℕ
  pub common : Option ContainerTemplate
  pub side_cars : List ContainerTemplate
  pub init_containers : List ContainerTemplate
  pub auth_secret : Text
  pub force_remove_driver : Option Bool
  pub metrics : Option DriverMetrics
  -- whether Node is not nil
  pub has_node : Bool
  -- the variables of the node's container; `none` where the node or they are nil
  pub node_envs : Option (List EnvVar)
  -- the variables of the controller's container; a nil controller has none
  pub controller_envs : List EnvVar
  -- CSIDriverSpec.StorageCapacity, which is false where the specification is nil
  pub storage_capacity : Bool

pub record Spec : Type 0 where
  pub version : Text
  pub driver : Driver
  pub modules : List Module
  pub custom_registry : Text
  pub retain_image_registry_path : Bool

pub record PodStatus : Type 0 where
  pub available : Text
  pub desired : Text
  pub failed : Text

pub record Status : Type 0 where
  pub controller_status : PodStatus
  pub node_status : PodStatus
  pub state : Text
  pub last_successful_configuration : Text

-- ContainerStorageModule, its metadata included
pub record Csm : Type 0 where
  pub name : Text
  pub namespace : Text
  pub uid : Text
  pub annotations : Option (Dict Text)
  pub finalizers : List Text
  pub deletion_timestamp : Option ℕ
  pub spec : Spec
  pub status : Status

-- The zero values that Go gives.
abbrev pub no_template : ContainerTemplate
no_template = record {
  name = [];
  enabled = none;
  image = [];
  image_pull_policy = [];
  args = [];
  envs = [];
  has_ingress = false;
  has_gateway = false;
  redis_username = [];
  redis_password = [];
  redis_providers = [];
  config_providers = [];
}

abbrev pub no_module : Module
no_module = record {
  name = [];
  enabled = false;
  config_version = [];
  components = [];
  force_remove_module = false;
  init_container = [];
}

abbrev pub no_pod_status : PodStatus
no_pod_status = record { available = []; desired = []; failed = [] }

abbrev pub no_status : Status
no_status = record {
  controller_status = no_pod_status;
  node_status = no_pod_status;
  state = [];
  last_successful_configuration = [];
}

abbrev pub no_driver : Driver
no_driver = record {
  csi_driver_type = [];
  config_version = [];
  replicas = 0;
  common = none;
  side_cars = [];
  init_containers = [];
  auth_secret = [];
  force_remove_driver = none;
  metrics = none;
  has_node = false;
  node_envs = none;
  controller_envs = [];
  storage_capacity = false;
}

abbrev pub no_spec : Spec
no_spec = record {
  version = [];
  driver = no_driver;
  modules = [];
  custom_registry = [];
  retain_image_registry_path = false;
}

abbrev pub no_csm : Csm
no_csm = record {
  name = [];
  namespace = [];
  uid = [];
  annotations = none;
  finalizers = [];
  deletion_timestamp = none;
  spec = no_spec;
  status = no_status;
}

-- ModuleType
abbrev pub authorization : Text
authorization = codes "authorization"

abbrev pub authorization_server : Text
authorization_server = codes "authorization-proxy-server"

abbrev pub replication : Text
replication = codes "replication"

abbrev pub resiliency : Text
resiliency = codes "resiliency"

abbrev pub observability : Text
observability = codes "observability"

abbrev pub reverse_proxy : Text
reverse_proxy = codes "csireverseproxy"

-- DriverType
abbrev pub power_flex : Text
power_flex = codes "powerflex"

abbrev pub power_max : Text
power_max = codes "powermax"

abbrev pub power_scale : Text
power_scale = codes "isilon"

abbrev pub power_scale_name : Text
power_scale_name = codes "powerscale"

abbrev pub unity : Text
unity = codes "unity"

abbrev pub power_store : Text
power_store = codes "powerstore"

abbrev pub cosi : Text
cosi = codes "cosi"

-- CSMStateType, of pkg/constants/constants.go
abbrev pub succeeded : Text
succeeded = codes "Succeeded"

abbrev pub creating : Text
creating = codes "Creating"

abbrev pub failed_state : Text
failed_state = codes "Failed"

abbrev pub invalid_config : Text
invalid_config = codes "InvalidConfig"

unfoldable pub get_controller_name : Csm → Text
get_controller_name cr =
    if text_eq cr.spec.driver.csi_driver_type cosi then cr.name else cr.name ++ codes "-controller"

unfoldable pub get_node_name : Csm → Text
get_node_name cr = cr.name ++ codes "-node"

-- The loops of `GetModule`, `HasModule` and others compare `m.Name`.
abbrev pub is_module : Text → Module → Bool
is_module t m = text_eq m.name t

unfoldable pub get_module : Csm → Text → Module
unfolding find
get_module cr t = get_or (find (is_module t) cr.spec.modules) no_module

unfoldable pub has_module : Csm → Text → Bool
unfolding any
has_module cr t = any (is_module t) cr.spec.modules

unfoldable pub is_being_deleted : Csm → Bool
is_being_deleted cr = is_some cr.deletion_timestamp

unfoldable pub has_finalizer : Csm → Text → Bool
unfolding any
has_finalizer cr f = any (λ item. text_eq item f) cr.finalizers
