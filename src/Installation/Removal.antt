-- ===== src/Installation/Removal.antt =====
-- The removal of a driver and of standalone modules: `removeDriver` and `removeModule` of
-- controllers/csm_controller.go.
pub mod Complete
use csm_operator.Prelude.{
  Bool, true, false, not, ◌&&◌, Option, none, some, List, [], if◌then◌else◌, is_some, Result,
}
use csm_operator.Prelude.Text.{Text, codes, text_eq}
use csm_operator.Exec.{Exec, ◌>>=◌, ◌>>◌, pure, attempt, wrapping}
use csm_operator.Csm.{
  Csm, authorization_server, observability, power_flex, power_max, power_store, replication,
  reverse_proxy,
}
use csm_operator.Csm.Modules.{is_module_enabled}
use csm_operator.Files.{OperatorConfig}
use csm_operator.Images.{no_version}
use csm_operator.Installation.{Components, DriverConfig, when}
use csm_operator.Installation.Driver.{get_driver_config, remove_driver_from_cluster}
use csm_operator.Installation.Modules.{
  reconcile_observability, reconcile_authorization, patch_csm_dr_crds,
}
use csm_operator.Installation.Metrics.{sync_metrics_resources}

abbrev pub has_driver_type : Csm → Text → Bool
has_driver_type cr t = text_eq cr.spec.driver.csi_driver_type t

module _ {W : Type 0} (parts : Components W) (op : OperatorConfig) where
  -- An error of the definitions' deletion is only logged.
  unfoldable pub remove_replication : Csm → Exec W (Unit {0})
  remove_replication cr =
      parts.replication_manager_controller true cr
      >> parts.delete_replication_configmap
      >> (attempt (parts.delete_replication_crds cr) >>= λ _. pure tt)

  -- Behind `getDriverConfig`: nothing is removed where the resource has no driver.
  unfoldable pub remove_config : Csm → Option DriverConfig → Exec W (Unit {0})
  remove_config cr none = pure tt
  remove_config cr (some config) =
      remove_driver_from_cluster parts.objects config
      >> when (is_some (is_module_enabled cr replication)) (remove_replication cr)
      >> when (is_some (is_module_enabled cr observability))
          (reconcile_observability parts op true cr [] no_version)
      >> when (has_driver_type cr power_max && parts.is_reverse_proxy_sidecar) (
          wrapping (codes "unable to reconcile reverse-proxy service")
            (parts.reverse_proxy_start_service true cr))
      >> when (has_driver_type cr power_store) (
          wrapping (codes "unable to remove the common CSM Disaster Recovery CRDs")
            (patch_csm_dr_crds parts op true))
      >> when (has_driver_type cr power_flex) (sync_metrics_resources parts true cr)

  unfoldable pub remove_driver : Csm → Exec W (Unit {0})
  remove_driver cr = get_driver_config parts cr no_version >>= λ config. remove_config cr config

  unfoldable pub reconcile_reverse_proxy_server : Bool → Csm → Exec W (Unit {0})
  reconcile_reverse_proxy_server is_deleting cr =
      wrapping (codes "unable to reconcile reverse-proxy server")
        (parts.reverse_proxy_server is_deleting cr)

  unfoldable pub remove_module : Csm → Exec W (Unit {0})
  remove_module cr =
      when (is_some (is_module_enabled cr authorization_server))
        (reconcile_authorization parts op true cr no_version)
      >> when (is_some (is_module_enabled cr reverse_proxy) && not parts.is_reverse_proxy_sidecar)
          (reconcile_reverse_proxy_server true cr)
