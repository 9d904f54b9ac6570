-- ===== src/Drivers/Placeholders/Flex.antt =====
-- `ModifyPowerflexCR` and `ModifyPowermaxCR` of pkg/drivers/powerflex.go and powermax.go.
use csm_operator.Prelude.{
  true, ◌&&◌, Option, none, some, List, [], ◌∷◌, ◌++◌, if◌then◌else◌, ◌==◌, get_or,
}
use csm_operator.Prelude.Text.{Text, codes, text_eq, is_empty}
use csm_operator.Prelude.Decimal.{format_nat}
use csm_operator.Csm.{
  Csm, ContainerTemplate, DriverMetrics, GatewayMonitoring, reverse_proxy, get_module,
}
use csm_operator.Drivers.Placeholders.{
  Change, substitute, last_env, common_value, node_value, controller_value, flag, health_monitor,
  csm_namespace, storage_capacity_change, reclamation_changes, by_type,
}

-- The metrics' settings of PowerFlex.
unfoldable pub metrics_enabled_text : Option DriverMetrics → Text
metrics_enabled_text none = codes "false"
metrics_enabled_text (some m) = flag m.enabled

unfoldable pub metrics_port : Option DriverMetrics → Text
metrics_port none = codes "9090"
metrics_port (some m) = if m.port == 0 then codes "9090" else format_nat m.port

unfoldable pub gateway_monitoring_of : Option DriverMetrics → Option GatewayMonitoring
gateway_monitoring_of none = none
gateway_monitoring_of (some m) = m.gateway_monitoring

unfoldable pub monitoring_enabled : Option DriverMetrics → Text
monitoring_enabled none = codes "false"
monitoring_enabled (some m) = elim m.gateway_monitoring [
  | none ↦ codes "false"
  | some g ↦ flag (m.enabled && g.enabled)
]

unfoldable pub leader_election : Option GatewayMonitoring → Text
leader_election none = codes "true"
leader_election (some g) = flag (get_or g.leader_election_enabled true)

unfoldable pub poll_interval_of : Option GatewayMonitoring → Text
poll_interval_of none = codes "30s"
poll_interval_of (some g) = if is_empty g.poll_interval then codes "30s" else g.poll_interval

unfoldable pub power_flex_controller_changes : Csm → List Change
power_flex_controller_changes cr =
    (codes "<X_CSI_HEALTH_MONITOR_ENABLED>", controller_value cr health_monitor (codes "false"))
    ∷ (
      codes "<X_CSI_POWERFLEX_EXTERNAL_ACCESS>",
      controller_value cr (codes "X_CSI_POWERFLEX_EXTERNAL_ACCESS") [],
    )
    ∷ csm_namespace cr
    ∷ (codes "<GOSCALEIO_DEBUG>", common_value cr (codes "GOSCALEIO_DEBUG") (codes "false"))
    ∷ (codes "<GOSCALEIO_SHOWHTTP>", common_value cr (codes "GOSCALEIO_SHOWHTTP") (codes "false"))
    ∷ (codes "<X_CSI_PROBE_TIMEOUT>", common_value cr (codes "X_CSI_PROBE_TIMEOUT") (codes "10s"))
    ∷ (codes "<X_CSI_AUTH_TYPE>", common_value cr (codes "X_CSI_AUTH_TYPE") [])
    ∷ (codes "<X_CSI_METRICS_ENABLED>", metrics_enabled_text cr.spec.driver.metrics)
    ∷ (codes "<X_CSI_METRICS_PORT>", metrics_port cr.spec.driver.metrics)
    ∷ (codes "<X_CSI_GATEWAY_MONITORING_ENABLED>", monitoring_enabled cr.spec.driver.metrics)
    ∷ (
      codes "<X_CSI_GATEWAY_MONITORING_LEADER_ELECTION_ENABLED>",
      leader_election (gateway_monitoring_of cr.spec.driver.metrics),
    )
    ∷ (
      codes "<X_CSI_GATEWAY_MONITORING_POLL_INTERVAL>",
      poll_interval_of (gateway_monitoring_of cr.spec.driver.metrics),
    )
    ∷ []

unfoldable pub power_flex_node_changes : Csm → List Change
power_flex_node_changes cr =
    (codes "<X_CSI_SDC_ENABLED>", node_value cr (codes "X_CSI_SDC_ENABLED") (codes "true"))
    ∷ (codes "<X_CSI_APPROVE_SDC_ENABLED>", node_value cr (codes "X_CSI_APPROVE_SDC_ENABLED") [])
    ∷ (codes "<X_CSI_RENAME_SDC_ENABLED>", node_value cr (codes "X_CSI_RENAME_SDC_ENABLED") [])
    ∷ (codes "<X_CSI_RENAME_SDC_PREFIX>", node_value cr (codes "X_CSI_RENAME_SDC_PREFIX") [])
    ∷ (codes "<X_CSI_MAX_VOLUMES_PER_NODE>", node_value cr (codes "X_CSI_MAX_VOLUMES_PER_NODE") [])
    ∷ (codes "<X_CSI_HEALTH_MONITOR_ENABLED>", node_value cr health_monitor (codes "false"))
    ∷ csm_namespace cr
    ∷ (codes "<GOSCALEIO_DEBUG>", common_value cr (codes "GOSCALEIO_DEBUG") (codes "false"))
    ∷ (codes "<GOSCALEIO_SHOWHTTP>", common_value cr (codes "GOSCALEIO_SHOWHTTP") (codes "false"))
    ∷ (
      codes "<X_CSI_SFTP_REPO_ADDRESS>",
      node_value cr (codes "REPO_ADDRESS") (codes "sftp://0.0.0.0"),
    )
    ∷ (codes "<X_CSI_SFTP_REPO_USER>", node_value cr (codes "REPO_USER") [])
    ∷ (
      codes "<X_CSI_SDC_SFTP_REPO_ENABLED>",
      node_value cr (codes "X_CSI_SDC_SFTP_REPO_ENABLED") [],
    )
    ∷ (codes "<X_CSI_PROBE_TIMEOUT>", common_value cr (codes "X_CSI_PROBE_TIMEOUT") (codes "10s"))
    ∷ (codes "<X_CSI_AUTH_TYPE>", common_value cr (codes "X_CSI_AUTH_TYPE") [])
    ∷ reclamation_changes cr

abbrev pub power_flex_changes : Csm → Text → List Change
power_flex_changes cr file =
    by_type file (power_flex_controller_changes cr) (power_flex_node_changes cr) (
      storage_capacity_change (flag cr.spec.driver.storage_capacity)
      ++ (codes "<X_CSI_QUOTA_ENABLED>", []) ∷ [])

unfoldable pub modify_powerflex_cr : Text → Csm → Text → Text
modify_powerflex_cr yaml cr file = substitute (power_flex_changes cr file) yaml

-- The last variable of the reverse proxy's components that names the secret.
unfoldable pub proxy_secret : Text → List ContainerTemplate → Text
proxy_secret default [] = default
proxy_secret default (c ∷ cs) =
    proxy_secret
      (if text_eq c.name (codes "csipowermax-reverseproxy")
        then last_env (codes "X_CSI_REVPROXY_TLS_SECRET") default c.envs
        else default)
      cs

abbrev pub proxy_change : Csm → Change
proxy_change cr = (
  codes "<X_CSI_REVPROXY_TLS_SECRET>",
  proxy_secret (codes "csirevproxy-tls-secret") (get_module cr reverse_proxy).components,
)

unfoldable pub power_max_controller_changes : Csm → List Change
power_max_controller_changes cr =
    (codes "<X_CSI_MANAGED_ARRAY>", common_value cr (codes "X_CSI_MANAGED_ARRAYS") [])
    ∷ (codes "<X_CSI_POWERMAX_ENDPOINT>", common_value cr (codes "X_CSI_POWERMAX_ENDPOINT") [])
    ∷ (
      codes "<X_CSI_POWERMAX_DEBUG>",
      common_value cr (codes "X_CSI_POWERMAX_DEBUG") (codes "false"),
    )
    ∷ (codes "<X_CSI_POWERMAX_PORTGROUPS>", common_value cr (codes "X_CSI_POWERMAX_PORTGROUPS") [])
    ∷ (codes "<X_CSI_TRANSPORT_PROTOCOL>", common_value cr (codes "X_CSI_TRANSPORT_PROTOCOL") [])
    ∷ (
      codes "<X_CSI_IG_NODENAME_TEMPLATE>",
      common_value cr (codes "X_CSI_IG_NODENAME_TEMPLATE") [],
    )
    ∷ (
      codes "<X_CSI_IG_MODIFY_HOSTNAME>",
      common_value cr (codes "X_CSI_IG_MODIFY_HOSTNAME") (codes "false"),
    )
    ∷ (codes "<X_CSI_HEALTH_MONITOR_ENABLED>", controller_value cr health_monitor (codes "false"))
    ∷ (codes "<X_CSI_TOPOLOGY_CONTROL_ENABLED>", codes "false")
    ∷ (
      codes "<X_CSI_VSPHERE_ENABLED>",
      common_value cr (codes "X_CSI_VSPHERE_ENABLED") (codes "false"),
    )
    ∷ (codes "<X_CSI_VSPHERE_PORTGROUP>", common_value cr (codes "X_CSI_VSPHERE_PORTGROUP") [])
    ∷ (codes "<X_CSI_VSPHERE_HOSTNAME>", common_value cr (codes "X_CSI_VSPHERE_HOSTNAME") [])
    ∷ (codes "<X_CSI_VCENTER_HOST>", common_value cr (codes "X_CSI_VCENTER_HOST") [])
    ∷ (codes "<X_CSI_POWERMAX_ISCSI_ENABLE_CHAP>", codes "false")
    ∷ proxy_change cr
    ∷ csm_namespace cr
    ∷ (
      codes "<X_CSI_DYNAMIC_SG_ENABLED>",
      common_value cr (codes "X_CSI_DYNAMIC_SG_ENABLED") (codes "false"),
    )
    ∷ []

unfoldable pub power_max_node_changes : Csm → List Change
power_max_node_changes cr =
    (codes "<X_CSI_MANAGED_ARRAY>", common_value cr (codes "X_CSI_MANAGED_ARRAYS") [])
    ∷ (codes "<X_CSI_POWERMAX_ENDPOINT>", common_value cr (codes "X_CSI_POWERMAX_ENDPOINT") [])
    ∷ (
      codes "<X_CSI_POWERMAX_DEBUG>",
      common_value cr (codes "X_CSI_POWERMAX_DEBUG") (codes "false"),
    )
    ∷ (codes "<X_CSI_POWERMAX_PORTGROUPS>", common_value cr (codes "X_CSI_POWERMAX_PORTGROUPS") [])
    ∷ (codes "<X_CSI_TRANSPORT_PROTOCOL>", common_value cr (codes "X_CSI_TRANSPORT_PROTOCOL") [])
    ∷ (
      codes "<X_CSI_IG_NODENAME_TEMPLATE>",
      common_value cr (codes "X_CSI_IG_NODENAME_TEMPLATE") [],
    )
    ∷ (
      codes "<X_CSI_IG_MODIFY_HOSTNAME>",
      common_value cr (codes "X_CSI_IG_MODIFY_HOSTNAME") (codes "false"),
    )
    ∷ (codes "<X_CSI_HEALTH_MONITOR_ENABLED>", node_value cr health_monitor (codes "false"))
    ∷ (
      codes "<X_CSI_TOPOLOGY_CONTROL_ENABLED>",
      node_value cr (codes "X_CSI_TOPOLOGY_CONTROL_ENABLED") (codes "false"),
    )
    ∷ (
      codes "<X_CSI_VSPHERE_ENABLED>",
      common_value cr (codes "X_CSI_VSPHERE_ENABLED") (codes "false"),
    )
    ∷ (codes "<X_CSI_VSPHERE_PORTGROUP>", common_value cr (codes "X_CSI_VSPHERE_PORTGROUP") [])
    ∷ (codes "<X_CSI_VSPHERE_HOSTNAME>", common_value cr (codes "X_CSI_VSPHERE_HOSTNAME") [])
    ∷ (codes "<X_CSI_VCENTER_HOST>", common_value cr (codes "X_CSI_VCENTER_HOST") [])
    ∷ (
      codes "<X_CSI_POWERMAX_ISCSI_ENABLE_CHAP>",
      node_value cr (codes "X_CSI_POWERMAX_ISCSI_ENABLE_CHAP") (codes "false"),
    )
    ∷ (codes "<X_CSI_MAX_VOLUMES_PER_NODE>", node_value cr (codes "X_CSI_MAX_VOLUMES_PER_NODE") [])
    ∷ proxy_change cr
    ∷ csm_namespace cr
    ∷ (
      codes "<X_CSI_DYNAMIC_SG_ENABLED>",
      common_value cr (codes "X_CSI_DYNAMIC_SG_ENABLED") (codes "false"),
    )
    ∷ reclamation_changes cr

-- The storage capacity is "true" whatever the resource says.
abbrev pub power_max_changes : Csm → Text → List Change
power_max_changes cr file =
    by_type file (power_max_controller_changes cr) (power_max_node_changes cr)
      (storage_capacity_change (codes "true"))

unfoldable pub modify_powermax_cr : Text → Csm → Text → Text
modify_powermax_cr yaml cr file = substitute (power_max_changes cr file) yaml
