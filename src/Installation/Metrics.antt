-- ===== src/Installation/Metrics.antt =====
-- `syncMetricsResources` of controllers/csm_controller.go: the service and the service monitor of a
-- driver's metrics.
use csm_operator.Prelude.{
  ℕ, Bool, true, false, not, ◌||◌, Option, none, some, [], ◌++◌, if◌then◌else◌, ◌==◌,
}
use csm_operator.Prelude.Text.{Text, codes, is_empty}
use csm_operator.Exec.{Exec, ◌>>=◌, ◌>>◌, pure, attempt, wrapping}
use csm_operator.Csm.{Csm, DriverMetrics, ServiceMonitorConfig}
use csm_operator.Objects.{Key, Object}
use csm_operator.Objects.Apply.{apply_object, delete_object}
use csm_operator.Installation.{Components, MetricsObject}

unfoldable pub metrics_enabled : Option DriverMetrics → Bool
metrics_enabled none = false
metrics_enabled (some m) = m.enabled

-- 9090 where none is given
unfoldable pub metrics_port : Option DriverMetrics → ℕ
metrics_port none = 9090
metrics_port (some m) = if m.port == 0 then 9090 else m.port

-- The configuration of a service monitor that is enabled.
unfoldable pub enabled_monitor : Option DriverMetrics → Option ServiceMonitorConfig
enabled_monitor none = none
enabled_monitor (some m) = elim m.service_monitor [
  | none ↦ none
  | some s ↦ if s.enabled then some s else none
]

-- `!shouldDelete && metrics.ServiceMonitor != nil && metrics.ServiceMonitor.Enabled`
unfoldable pub monitor_of : Bool → Option DriverMetrics → Option ServiceMonitorConfig
monitor_of should_delete metrics = if should_delete then none else enabled_monitor metrics

unfoldable pub monitor_interval : Option ServiceMonitorConfig → Text
monitor_interval none = codes "30s"
monitor_interval (some s) = if is_empty s.interval then codes "30s" else s.interval

unfoldable pub insecure : Option ServiceMonitorConfig → Bool
insecure none = false
insecure (some s) = s.insecure_skip_verify

-- The TLS settings, where there is a secret.
unfoldable pub tls_of : Option DriverMetrics → Bool → Option Bool
tls_of none skip = none
tls_of (some m) skip = if is_empty m.tls_cert_secret then none else some skip

unfoldable pub blocks_owner_deletion : Csm → Bool
blocks_owner_deletion cr = elim cr.spec.driver.force_remove_driver [ none ↦ false | some b ↦ not b ]

unfoldable pub metrics_object : Csm → Text → Option ServiceMonitorConfig → MetricsObject
metrics_object cr name monitor = record {
  name = name;
  namespace = cr.namespace;
  app = cr.name ++ codes "-controller";
  port = metrics_port cr.spec.driver.metrics;
  interval = monitor_interval monitor;
  tls = tls_of cr.spec.driver.metrics (insecure monitor);
  block_owner_deletion = blocks_owner_deletion cr;
}

abbrev pub metrics_key : Text → MetricsObject → Key
metrics_key kind o = record { kind = kind; namespace = o.namespace; name = o.name }

-- One object: gone, with an error only logged, or applied.
unfoldable pub sync_metrics_object :
    {W : Type 0} → Components W → Bool → Object → Text → Exec W (Unit {0})
sync_metrics_object parts is_deleting o text =
    if is_deleting
    then (attempt (delete_object parts.objects o.key) >>= λ _. pure tt)
    else wrapping text (apply_object parts.objects o)

unfoldable pub metrics_service : {W : Type 0} → Components W → Csm → Object
metrics_service parts cr =
    let o = metrics_object cr (cr.name ++ codes "-metrics") none in
    record {
      key = metrics_key (codes "Service") o;
      resource_version = [];
      template_labels = none;
      body = parts.service_body o;
    }

unfoldable pub metrics_monitor :
    {W : Type 0} → Components W → Csm → Option ServiceMonitorConfig → Object
metrics_monitor parts cr monitor =
    let o = metrics_object cr (cr.name ++ codes "-metrics-monitor") monitor in
    record {
      key = metrics_key (codes "ServiceMonitor") o;
      resource_version = [];
      template_labels = none;
      body = parts.service_monitor_body o;
    }

abbrev pub is_none {ℓ} : {A : Type ℓ} → Option A → Bool
is_none none = true
is_none (some a) = false

unfoldable pub sync_metrics_resources : {W : Type 0} → Components W → Bool → Csm → Exec W (Unit {0})
sync_metrics_resources parts is_deleting cr =
    let metrics = cr.spec.driver.metrics in
    let should_delete = is_deleting || not (metrics_enabled metrics) in
    let monitor = monitor_of should_delete metrics in
    sync_metrics_object parts should_delete (metrics_service parts cr)
      (codes "failed to sync metrics Service")
    >> sync_metrics_object parts (is_none monitor) (metrics_monitor parts cr monitor)
        (codes "failed to sync ServiceMonitor")
