-- ===== src/Controller.antt =====
-- The reconciler of controllers/csm_controller.go: its state, the checks in front of a reconcile, the
-- deletion of a resource and the reconcile itself.
pub mod Prechecks
pub mod Deletion
pub mod Reconcile
pub mod Events
pub mod Refresh
use csm_operator.Prelude.{ℕ, Option, List, Result}
use csm_operator.Prelude.Text.{Text, codes}
use csm_operator.Exec.{Exec}
use csm_operator.Csm.{Csm, Module, ContainerTemplate}
use csm_operator.Files.{OperatorConfig}
use csm_operator.Status.Calculate.{Outside}
use csm_operator.Watches.{Watches}

-- CSMFinalizerName
abbrev pub csm_finalizer_name : Text
csm_finalizer_name = codes "finalizer.dell.emc.com"

-- The calls of `Reconcile` that the model takes as they come: the prechecks of the drivers and of
-- the modules, the zones' check, Go's `url.Parse` on the registry, the installation and the removal of
-- a driver or module, and the informers that `ContentWatch` starts.
pub record Parts (W : Type 0) : Type 0 where
  pub outside : Outside W
  pub driver_precheck : Csm → Exec W Csm
  pub zone_validation : Csm → Exec W (Unit {0})
  -- The result is the module's components, which a precheck may edit in the resource.
  pub module_precheck : Csm → Module → Exec W (List ContainerTemplate)
  pub validate_custom_registry : Text → Result (Unit {0})
  pub remove_driver : Csm → Exec W (Unit {0})
  pub remove_module : Csm → Exec W (Unit {0})
  pub sync_csm : Csm → Exec W (Unit {0})
  pub content_watch : Csm → Exec W (Unit {0})

-- ContainerStorageModuleReconciler, and the world that it acts on
pub record Reconciler (W : Type 0) : Type 0 where
  pub world : W
  pub watches : Watches
  pub update_count : ℕ
