-- ===== src/Examples/Statuses.antt =====
-- The state of an installation at concrete inputs.
use csm_operator.Exec.{pure, ◌>>=◌}
use csm_operator.Prelude.{
  arith, ◌≤◌, ◌+◌, find, any, true, false, none, [], ◌∷◌, ◌≡◌, ◌↔◌, ◌⊎◌, refl, ok, is_some, ltb,
  length, Err,
}
use csm_operator.Prelude.Text.{is_empty, codes, text_eq}
use csm_operator.Prelude.Decimal.{emit_digits, format_nat}
use csm_operator.Csm.{
  authorization_server, no_csm, get_node_name, get_controller_name, has_module, get_module, Csm,
  succeeded, cosi,
}
use csm_operator.Status.Pods.{
  error_text, waiting_errors, ready_condition, tally_pod, tally_pods, node_report,
  report_daemon_set, get_daemon_set_status, deployment_status, is_authorization_proxy_server,
  get_deployment_status, report_pods, is_running, is_pending,
}
use csm_operator.Status.Pods.Counts.{count, report_pods-counts}
use csm_operator.Status.Checks.{
  components_of, component_flag, proxy_flags, ProxyFlags, use_gateway_api, auth_proxy_status_check,
}
use csm_operator.Status.Checks.Ready.{
  AllReady, conditions, must_be_ready, auth_proxy_status_check-AllReady,
}
use csm_operator.Status.Calculate.{
  state_after, write_status, after_write, record_successful, finish_update, record_server,
  conclude_modules, conclude, modules_running, nodes_of_report, has_nodes, node_pods,
  controller_pods, with_status, Calculated, calculate_state, update_status, handle_success,
}
use csm_operator.Status.Calculate.States.{
  AllRun, calculate_state-state, calculate_state-running, calculate_state_without_deployment,
}
use csm_operator.Status.Calculate.Updates.{Accepted, update_status-Accepted}
use csm_operator.Samples.{
  flex, server, config, controller, node_pod, cluster, bare_cluster, outside,
}

-- A Cosi driver.
abbrev bucket : Csm
bucket = record flex {
  spec = record flex.spec { driver = record flex.spec.driver { csi_driver_type = cosi } };
}

-- What the driver's status is in the cluster.
abbrev flex_status : Csm
flex_status = with_status flex (record {
  controller_status = record { available = codes "2"; desired = codes "2"; failed = codes "0" };
  node_status = record { available = codes "1"; desired = codes "1"; failed = codes "0" };
  state = succeeded;
  last_successful_configuration = [];
})

abbrev running_flex : Calculated
running_flex = record { csm = flex_status; running = true; error = none }

-- A test
flex_runs : (calculate_state outside flex config none flex).0 ≡ ok running_flex
unfolding calculate_state text_eq controller_pods get_deployment_status is_empty
    is_authorization_proxy_server ◌>>=◌ pure deployment_status format_nat node_pods has_nodes
    nodes_of_report get_daemon_set_status report_daemon_set report_pods node_report tally_pods
    emit_digits modules_running conclude conclude_modules record_server tally_pod is_running
    is_pending ready_condition waiting_errors get_module has_module get_controller_name
    get_node_name any find error_text
flex_runs = refl

calculate_state-state_example :
    (flex_status.status.state ≡ succeeded) × (flex_status ≡ with_status flex flex_status.status)
calculate_state-state_example =
    calculate_state-state outside flex config none flex running_flex flex_runs

calculate_state-running_example :
    ((controller (codes "flex-controller")).available_replicas
      ≡ (controller (codes "flex-controller")).replicas)
    × ((text_eq flex.spec.driver.csi_driver_type cosi ≡ true) ⊎ AllRun cluster flex flex)
unfolding get_controller_name get_node_name is_empty is_authorization_proxy_server has_module any
    text_eq
calculate_state-running_example =
    calculate_state-running outside flex config flex (controller (codes "flex-controller"))
      running_flex refl refl refl (omega arith) (omega arith) flex_runs refl

update_test : (update_status outside flex config none flex).0 ≡ ok (flex_status, none)
unfolding update_status finish_update record_successful after_write write_status ◌>>=◌ pure text_eq
    format_nat
update_test = rw flex_runs refl

update_status-Accepted_example :
    (flex_status.status.state ≡ succeeded) × Accepted cluster flex_status
update_status-Accepted_example =
    update_status-Accepted outside flex flex_status config none flex (λ f w. (w, refl)) update_test

handle_test : (handle_success outside false flex config flex).0 ≡ ok (flex_status, false)
unfolding handle_success state_after ◌>>=◌ pure
handle_test = rw flex_runs refl

calculate_state_without_deployment_example :
    (c : Calculated) × ((calculate_state
        (record outside { api = bare_cluster })
        bucket
        config
        none
        no_csm).0
      ≡ ok c)
    × (c.running ≡ true)
    × (c.csm.status.state ≡ succeeded)
unfolding has_nodes is_empty is_authorization_proxy_server text_eq
calculate_state_without_deployment_example =
    calculate_state_without_deployment (record outside { api = bare_cluster }) bucket config no_csm
      Err.not_found refl refl refl

report_pods-counts_example :
    let r = report_pods 1 (ok (node_pod ∷ [])) in
    (r.pods.available ≡ format_nat (count is_running (node_pod ∷ [])))
    × (r.pods.failed ≡ format_nat (count is_pending (node_pod ∷ [])))
    × (count is_running (node_pod ∷ []) + count is_pending (node_pod ∷ []) ≤ length (node_pod ∷ []))
    × (is_some r.error ≡ ltb 0 (count is_pending (node_pod ∷ [])))
report_pods-counts_example = report_pods-counts 1 (node_pod ∷ [])

abbrev no_flags : ProxyFlags
no_flags = record { proxy_cert_enabled = false; nginx_enabled = false; gateway_enabled = false }

auth_proxy_status_check-AllReady_example :
    ((auth_proxy_status_check cluster server server).0 ≡ ok true)
    ↔ AllReady
        (must_be_ready (
          conditions server.namespace
            (use_gateway_api server)
            (components_of authorization_server server.spec.modules)))
        (controller (codes "redis-primary") ∷ [])
unfolding proxy_flags component_flag components_of text_eq
auth_proxy_status_check-AllReady_example =
    auth_proxy_status_check-AllReady cluster server no_flags server
      (controller (codes "redis-primary") ∷ []) refl refl
