-- ===== src/Samples/Surroundings.antt =====
-- The surroundings of an installation over the store of the samples: every function of the drivers and
-- the modules leaves the store as it is.
use csm_operator.Prelude.{Bool, true, false, none, [], ◌∷◌, ok, err, Err}
use csm_operator.Prelude.Text.{codes}
use csm_operator.Exec.{Exec}
use csm_operator.Csm.{no_csm}
use csm_operator.Cluster.{Deployment, Client}
use csm_operator.Images.{no_version}
use csm_operator.Objects.{Key}
use csm_operator.Installation.{Injectors, Components}
use csm_operator.Samples.Store.{
  World, store, object, node_yaml, controller_yaml, csi_driver, params,
}

abbrev nothing : Exec World (Unit {0})
nothing w = (ok tt, w)

abbrev webhook : Deployment
webhook = record {
  name = codes "cert-manager-webhook";
  namespace = codes "ns";
  owner_references = none;
  spec_replicas = 1;
  replicas = 1;
  available_replicas = 1;
  ready_replicas = 1;
  unavailable_replicas = 0;
}

abbrev pub world_client : Client World
world_client = record {
  get_csm = λ _ _ w. (err Err.not_found, w);
  update_csm = λ cr w. (ok cr, w);
  update_csm_status = λ cr w. (ok cr, w);
  get_deployment = λ _ _ w. (ok webhook, w);
  update_deployment = λ _ w. (ok tt, w);
  get_daemon_set = λ _ _ w. (err Err.not_found, w);
  list_deployments = λ _ w. (ok [], w);
  list_pods = λ _ _ w. (ok [], w);
}

abbrev injectors : Injectors World
injectors = record {
  add_reverse_proxy_service_name = λ o. o;
  mount_power_max_content = λ _ o. o;
  reverse_proxy_inject_deployment = λ _ _ o w. (ok o, w);
  update_power_max_config_map = λ _ o. o;
  remove_scaleio_volume = λ o. o;
  remove_sftp_keys = λ o. o;
  auth_inject_deployment = λ _ o w. (ok o, w);
  auth_inject_daemonset = λ _ o w. (ok o, w);
  resiliency_inject_deployment = λ _ _ o w. (ok o, w);
  resiliency_inject_daemonset = λ _ _ o w. (ok o, w);
  resiliency_inject_cluster_role = λ _ _ o w. (ok o, w);
  resiliency_inject_role = λ _ _ o w. (ok o, w);
  replication_inject_deployment = λ _ _ o w. (ok o, w);
  replication_inject_cluster_role = λ _ o w. (ok o, w);
}

abbrev pub components : (Key → Bool) → Components World
components blocked = record {
  api = world_client;
  objects = store blocked;
  is_open_shift = true;
  is_harvester = λ w. (ok false, w);
  is_reverse_proxy_sidecar = false;
  resolve_version = λ _ w. (ok no_version, w);
  get_csi_driver = λ _ _ w. (ok csi_driver, w);
  get_node = λ _ _ _ w. (ok node_yaml, w);
  get_config_map = λ _ _ w. (ok params, w);
  get_controller = λ _ _ _ w. (ok controller_yaml, w);
  inject = injectors;
  auth_crd_deploy = λ _. nothing;
  authorization_server_deployment = λ _ _ _. nothing;
  install_policies = λ _ _. nothing;
  nginx_ingress_controller = λ _ _. nothing;
  nginx_ingress_controller_cleanup = λ _. nothing;
  gateway_controller = λ _ _. nothing;
  authorization_ingress = λ _ _. nothing;
  install_with_certs = λ _ _. nothing;
  otel_collector = λ _ _ _. nothing;
  common_cert_manager = λ _ _ _. nothing;
  observability_topology = λ _ _ _. nothing;
  power_scale_metrics = λ _ _. nothing;
  power_flex_metrics = λ _ _. nothing;
  power_max_metrics = λ _ _. nothing;
  power_store_metrics = λ _ _. nothing;
  issuer_cert_service_obs = λ _ _. nothing;
  replication_crd_deploy = λ _. nothing;
  replication_manager_controller = λ _ _. nothing;
  create_replication_configmap = λ _. nothing;
  delete_replication_configmap = nothing;
  delete_replication_crds = λ _. nothing;
  reverse_proxy_server = λ _ _. nothing;
  reverse_proxy_start_service = λ _ _. nothing;
  csm_dr_crds = ok (object (codes "CRD") (codes "drs") ∷ []);
  service_body = λ o. o.port;
  service_monitor_body = λ o. o.port;
  unmarshal = λ _. ok no_csm;
  marshal = λ _. ok (codes "{}");
}
