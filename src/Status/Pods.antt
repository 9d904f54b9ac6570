-- ===== src/Status/Pods.antt =====
-- The counts of the controller's deployment and of the node pods: `getDeploymentStatus` and
-- `getDaemonSetStatus`.
pub mod Counts
use csm_operator.Prelude.{
  ℕ, zero, ◌+◌, Bool, true, false, not, ◌&&◌, ◌||◌, Option, none, some, List, [], ◌∷◌, ◌++◌,
  if◌then◌else◌, ltb, any, Result, ok, err, Err,
}
use csm_operator.Prelude.Text.{Text, codes, text_eq, is_empty, replace_first}
use csm_operator.Prelude.Dict.{Dict, insert}
use csm_operator.Prelude.Decimal.{format_nat}
use csm_operator.Exec.{Exec, ◌>>=◌, pure, raise}
use csm_operator.Csm.{
  Csm, PodStatus, no_pod_status, authorization_server, is_module, get_controller_name,
  get_node_name, has_module,
}
use csm_operator.Cluster.{Deployment, DaemonSet, Waiting, PodCondition, Pod, Client}

-- emptyStatus
abbrev pub empty_status : PodStatus
empty_status = record { available = codes "0"; desired = codes "0"; failed = codes "0" }

-- The loop is that of `HasModule`.
unfoldable pub is_authorization_proxy_server : Csm → Bool
unfolding has_module
is_authorization_proxy_server cr = has_module cr authorization_server

unfoldable pub deployment_status : Deployment → PodStatus
deployment_status d = record {
  available = format_nat d.available_replicas;
  desired = format_nat d.replicas;
  failed = format_nat d.unavailable_replicas;
}

-- On an error the Go function returns `empty_status` beside it.
unfoldable pub get_deployment_status : {W : Type 0} → Client W → Csm → Exec W PodStatus
get_deployment_status api cr =
    if is_empty cr.name || is_authorization_proxy_server cr
    then pure empty_status
    else (api.get_deployment cr.namespace (get_controller_name cr) >>= λ d.
        pure (deployment_status d))

abbrev pub container_creating : Text
container_creating = codes "ContainerCreating"

abbrev pub pending_create : Text
pending_create = codes "Pending create"

abbrev pub removed_prefix : Text
removed_prefix = codes "rpc error: code = Unknown desc = Error response from daemon:"

-- What one waiting container of a pending pod adds to `errMap`.
unfoldable pub waiting_errors : List (Option Waiting) → Dict Text → Dict Text
waiting_errors [] m = m
waiting_errors (none ∷ cs) m = waiting_errors cs m
waiting_errors (some w ∷ cs) m = waiting_errors cs (
    insert m w.reason (
      if text_eq w.reason container_creating
      then pending_create
      else replace_first w.message removed_prefix []))

unfoldable pub is_pending : Pod → Bool
is_pending p = text_eq p.phase (codes "Pending")

-- The status of the last condition of type "Ready", and "False" where there is none.
unfoldable pub ready_condition : List PodCondition → Text → Text
ready_condition [] last = last
ready_condition (c ∷ cs) last =
    ready_condition cs (if text_eq c.type (codes "Ready") then c.status else last)

unfoldable pub is_running : Pod → Bool
is_running p =
    text_eq p.phase (codes "Running")
    && text_eq (ready_condition p.conditions (codes "False")) (codes "True")

-- The variables of the loop over the pods.
pub record Tally : Type 0 where
  pub failed_count : ℕ
  pub running_count : ℕ
  pub err_map : Dict Text

unfoldable pub tally_pod : Pod → Tally → Tally
tally_pod p t =
    let t' =
      if is_pending p
      then record t {
        failed_count = t.failed_count + 1;
        err_map = waiting_errors p.container_statuses t.err_map;
      }
      else t in
    if is_running p then record t' { running_count = t'.running_count + 1 } else t'

unfoldable pub tally_pods : List Pod → Tally → Tally
tally_pods [] t = t
tally_pods (p ∷ ps) t = tally_pods ps (tally_pod p t)

-- `for k, v := range errMap { msg += k + "=" + v }`
unfoldable pub error_text : Text → Dict Text → Text
error_text msg [] = msg
error_text msg ((k, v) ∷ m) = error_text (msg ++ k ++ b'=' ∷ v) m

-- The three results of `getDaemonSetStatus`.
pub record NodeReport : Type 0 where
  pub expected : ℕ
  pub pods : PodStatus
  pub error : Option Err

unfoldable pub node_report : ℕ → Tally → NodeReport
unfolding error_text
node_report desired t = record {
  expected = desired;
  pods = record {
    available = format_nat t.running_count;
    desired = format_nat desired;
    failed = format_nat t.failed_count;
  };
  error =
      if ltb 0 t.failed_count
      then some
          (Err.message (error_text (codes "error message for default-source-cluster \n") t.err_map))
      else none;
}

abbrev pub no_tally : Tally
no_tally = record { failed_count = 0; running_count = 0; err_map = [] }

unfoldable pub report_pods : ℕ → Result (List Pod) → NodeReport
report_pods desired (err e) = record { expected = desired; pods = no_pod_status; error = some e }
report_pods desired (ok pods) = node_report desired (tally_pods pods no_tally)

unfoldable pub report_daemon_set :
    {W : Type 0} → Client W → Csm → Result DaemonSet → W → NodeReport × W
report_daemon_set api cr (err e) w =
    (record { expected = 0; pods = no_pod_status; error = some e }, w)
report_daemon_set api cr (ok ds) w =
    let (pods, w') = api.list_pods cr.namespace (cr.name ++ codes "-node") w in
    (report_pods ds.desired_number_scheduled pods, w')

unfoldable pub get_daemon_set_status : {W : Type 0} → Client W → Csm → W → NodeReport × W
get_daemon_set_status api cr w =
    let (ds, w') = api.get_daemon_set cr.namespace (get_node_name cr) w in
    report_daemon_set api cr ds w'
