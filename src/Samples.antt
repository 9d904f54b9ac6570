-- ===== src/Samples.antt =====
-- Test data: a PowerFlex driver with its modules, an authorization server, a configuration and a
-- cluster whose state is the one resource that it stores.
pub mod Store
pub mod Surroundings
pub mod Secrets
use csm_operator.Prelude.{true, none, some, List, [], ◌∷◌, ok, err, Err}
use csm_operator.Prelude.Text.{Text, codes}
use csm_operator.Csm.{
  ContainerTemplate, Module, Csm, no_template, no_module, no_driver, no_spec, no_csm, power_flex,
  observability, authorization_server,
}
use csm_operator.Files.{OperatorConfig}
use csm_operator.Cluster.{Deployment, Pod, Client}
use csm_operator.Status.Calculate.{Outside}
use csm_operator.Watches.{no_watches}
use csm_operator.Controller.{Parts, Reconciler}

abbrev pub observability_module : Module
observability_module = record no_module { name = observability; enabled = true }

abbrev pub server_module : Module
server_module = record no_module {
  name = authorization_server;
  enabled = true;
  config_version = codes "v2.3.0";
}

abbrev pub flex : Csm
flex = record no_csm {
  name = codes "flex";
  namespace = codes "ns";
  uid = codes "u1";
  spec = record no_spec {
    driver = record no_driver {
      csi_driver_type = power_flex;
      config_version = codes "v2.15.0";
      force_remove_driver = some true;
    };
  };
}

abbrev pub with_modules : List Module → Csm → Csm
with_modules ms cr = record cr { spec = record cr.spec { modules = ms } }

abbrev pub observed : Csm
observed = with_modules (observability_module ∷ []) flex

abbrev pub server : Csm
server = record no_csm {
  name = codes "auth";
  namespace = codes "ns";
  spec = record no_spec { modules = server_module ∷ [] };
}

abbrev pub topology : ContainerTemplate
topology = record no_template { name = codes "topology"; enabled = some true }

abbrev pub config : OperatorConfig
config = record {
  upgrade_path = λ _ _. ok (codes "v2.13.0");
  has_upgrade_path = λ _ _. true;
  module_versions = λ _. ok (codes "v2.3.0" ∷ codes "v2.4.0" ∷ codes "v2.5.0" ∷ []);
  version_mapping = ok [];
  version_values = ok [];
  default_components =
      ok (with_modules (record observability_module { components = topology ∷ [] } ∷ []) no_csm);
}

abbrev pub controller : Text → Deployment
controller name = record {
  name = name;
  namespace = codes "ns";
  owner_references = none;
  spec_replicas = 2;
  replicas = 2;
  available_replicas = 2;
  ready_replicas = 2;
  unavailable_replicas = 0;
}

abbrev pub node_pod : Pod
node_pod = record {
  name = codes "flex-node-1";
  phase = codes "Running";
  container_statuses = none ∷ [];
  conditions = record { type = codes "Ready"; status = codes "True" } ∷ [];
}

abbrev pub cluster : Client Csm
cluster = record {
  get_csm = λ _ _ w. (ok w, w);
  update_csm = λ cr w. (ok cr, cr);
  update_csm_status = λ cr w. (ok cr, record w { status = cr.status });
  get_deployment = λ _ name w. (ok (controller name), w);
  update_deployment = λ _ w. (ok tt, w);
  get_daemon_set = λ namespace name w.
      (ok (record { name = name; namespace = namespace; desired_number_scheduled = 1 }), w);
  list_deployments = λ _ w. (ok (controller (codes "redis-primary") ∷ []), w);
  list_pods = λ _ _ w. (ok (node_pod ∷ []), w);
}

-- A cluster in which no deployment is found.
abbrev pub bare_cluster : Client Csm
bare_cluster = record cluster { get_deployment = λ _ _ w. (err Err.not_found, w) }

abbrev pub outside : Outside Csm
outside = record { api = cluster; marshal = λ _. ok (codes "{}"); retry_on_conflict = λ f. f }

abbrev pub parts : Parts Csm
parts = record {
  outside = outside;
  driver_precheck = λ cr w. (ok cr, w);
  zone_validation = λ _ w. (ok tt, w);
  module_precheck = λ _ m w. (ok m.components, w);
  validate_custom_registry = λ _. ok tt;
  remove_driver = λ _ w. (ok tt, w);
  remove_module = λ _ w. (ok tt, w);
  sync_csm = λ _ w. (ok tt, w);
  content_watch = λ _ w. (ok tt, w);
}

-- A driver that cannot be removed.
abbrev pub stuck_parts : Parts Csm
stuck_parts = record parts { remove_driver = λ _ w. (err Err.forbidden, w) }

abbrev pub reconciler : Reconciler Csm
reconciler = record { world = flex; watches = no_watches; update_count = 0 }
