-- ===== src/Drivers/Placeholders.antt =====
-- What the drivers write for the placeholders of their yaml files: `ModifyPowerScaleCR` and
-- `ModifyUnityCR` of pkg/drivers/powerscale.go and unity.go. The changes are a list, made from the
-- first to the last.
pub mod Flex
pub mod Store
pub mod Unmentioned
use csm_operator.Prelude.{
  ℕ, Bool, true, false, not, ◌&&◌, Option, none, some, List, [], ◌∷◌, ◌++◌, if◌then◌else◌, ◌==◌,
  get_or,
}
use csm_operator.Prelude.Text.{Text, codes, text_eq, is_empty, replace_all}
use csm_operator.Prelude.Decimal.{format_nat}
use csm_operator.Csm.{
  Csm, EnvVar, ContainerTemplate, Module, DriverMetrics, GatewayMonitoring, reverse_proxy,
  get_module,
}
use csm_operator.Drivers.Certificates.{common_envs}
use csm_operator.Installation.Sync.{get_driver_common_env}

-- A text, and what takes its place.
abbrev pub Change : Type 0
Change = Text × Text

unfoldable pub substitute : List Change → Text → Text
substitute [] yaml = yaml
substitute ((old, new) ∷ changes) yaml = substitute changes (replace_all yaml old new)

-- EnvToPlaceholder
abbrev pub placeholder : Text → Text
placeholder name = b'<' ∷ name ++ b'>' ∷ []

-- The value of the last variable of the name.
unfoldable pub last_env : Text → Text → List EnvVar → Text
last_env name default [] = default
last_env name default (e ∷ es) = last_env name (if text_eq e.name name then e.value else default) es

abbrev pub node_envs_of : Csm → List EnvVar
node_envs_of cr = get_or cr.spec.driver.node_envs []

abbrev pub common_value : Csm → Text → Text → Text
common_value cr name default = last_env name default (common_envs cr.spec.driver.common)

abbrev pub node_value : Csm → Text → Text → Text
node_value cr name default = last_env name default (node_envs_of cr)

abbrev pub controller_value : Csm → Text → Text → Text
controller_value cr name default = last_env name default cr.spec.driver.controller_envs

abbrev pub flag : Bool → Text
flag b = if b then codes "true" else codes "false"

abbrev pub health_monitor : Text
health_monitor = codes "X_CSI_HEALTH_MONITOR_ENABLED"

abbrev pub csm_namespace : Csm → Change
csm_namespace cr = (codes "<CSM_NAMESPACE>", cr.namespace)

-- CsiStorageCapacityEnabled is the text "false".
abbrev pub storage_capacity_change : Text → List Change
storage_capacity_change value = (codes "false", value) ∷ []

-- The six variables of `SubstituteEnvVar`, with GetDriverCommonEnv's values.
abbrev pub common_change : Csm → Text → Text → Change
common_change cr name default = (placeholder name, get_driver_common_env cr name default)

abbrev pub reclamation_changes : Csm → List Change
reclamation_changes cr =
    common_change cr (codes "X_CSI_FS_CHECK_ENABLED") (codes "false")
    ∷ common_change cr (codes "X_CSI_FS_CHECK_MODE") (codes "checkOnly")
    ∷ common_change cr (codes "X_CSI_SPACE_RECLAMATION_ENABLED") (codes "false")
    ∷ common_change cr (codes "X_CSI_SPACE_RECLAMATION_SCHEDULE") []
    ∷ common_change cr (codes "X_CSI_SPACE_RECLAMATION_MAX_CONCURRENT") []
    ∷ common_change cr (codes "X_CSI_SPACE_RECLAMATION_TIMEOUT") []
    ∷ []

-- The case of a type of file: "Controller", "Node" or "CSIDriverSpec"; any other has no changes.
abbrev pub by_type : Text → List Change → List Change → List Change → List Change
by_type file controller node driver =
    if text_eq file (codes "Controller")
    then controller
    else if text_eq file (codes "Node")
    then node
    else if text_eq file (codes "CSIDriverSpec")
    then driver
    else []

unfoldable pub power_scale_controller_changes : Csm → List Change
power_scale_controller_changes cr =
    (codes "<X_CSI_HEALTH_MONITOR_ENABLED>", controller_value cr health_monitor (codes "false"))
    ∷ csm_namespace cr
    ∷ (codes "<GOISILON_DEBUG>", common_value cr (codes "GOISILON_DEBUG") (codes "false"))
    ∷ (codes "<CSI_VOL_PREFIX>", controller_value cr (codes "X_CSI_VOL_PREFIX") (codes "csivol"))
    ∷ []

unfoldable pub power_scale_node_changes : Csm → List Change
power_scale_node_changes cr =
    (codes "<X_CSI_HEALTH_MONITOR_ENABLED>", node_value cr health_monitor (codes "false"))
    ∷ csm_namespace cr
    ∷ (codes "<GOISILON_DEBUG>", common_value cr (codes "GOISILON_DEBUG") (codes "false"))
    ∷ []

abbrev pub power_scale_changes : Csm → Text → List Change
power_scale_changes cr file =
    by_type file (power_scale_controller_changes cr) (power_scale_node_changes cr)
      (storage_capacity_change (flag cr.spec.driver.storage_capacity))

unfoldable pub modify_power_scale_cr : Text → Csm → Text → Text
modify_power_scale_cr yaml cr file = substitute (power_scale_changes cr file) yaml

unfoldable pub unity_controller_changes : Csm → List Change
unity_controller_changes cr =
    (codes "<X_CSI_HEALTH_MONITOR_ENABLED>", controller_value cr health_monitor (codes "false"))
    ∷ csm_namespace cr
    ∷ (codes "<GOUNITY_DEBUG>", common_value cr (codes "GOUNITY_DEBUG") (codes "false"))
    ∷ (codes "<GOUNITY_SHOWHTTP>", common_value cr (codes "GOUNITY_SHOWHTTP") (codes "false"))
    ∷ []

unfoldable pub unity_node_changes : Csm → List Change
unity_node_changes cr =
    (codes "<X_CSI_HEALTH_MONITOR_ENABLED>", node_value cr health_monitor (codes "false"))
    ∷ (codes "<X_CSI_ALLOWED_NETWORKS>", node_value cr (codes "X_CSI_ALLOWED_NETWORKS") [])
    ∷ csm_namespace cr
    ∷ (codes "<GOUNITY_DEBUG>", common_value cr (codes "GOUNITY_DEBUG") (codes "false"))
    ∷ (codes "<GOUNITY_SHOWHTTP>", common_value cr (codes "GOUNITY_SHOWHTTP") (codes "false"))
    ∷ []

abbrev pub unity_changes : Csm → Text → List Change
unity_changes cr file =
    by_type file (unity_controller_changes cr) (unity_node_changes cr)
      (storage_capacity_change (flag cr.spec.driver.storage_capacity))

unfoldable pub modify_unity_cr : Text → Csm → Text → Text
modify_unity_cr yaml cr file = substitute (unity_changes cr file) yaml
