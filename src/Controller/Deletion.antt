-- ===== src/Controller/Deletion.antt =====
-- The deletion of a resource: `removeFinalizer`, `removeDeploymentOwnerRef` and the part of `Reconcile`
-- for a resource with a deletion timestamp.
pub mod Order
use csm_operator.Prelude.{
  ℕ, Bool, true, false, not, ◌&&◌, ◌||◌, Option, none, some, List, [], ◌∷◌, if◌then◌else◌, ◌==◌,
  get_or, length, Result, ok, err, Err, wrap,
}
use csm_operator.Prelude.Text.{Text, codes, text_eq}
use csm_operator.Exec.{wrapping, Exec, ◌>>=◌, ◌>>◌, pure, raise, lift, attempt}
use csm_operator.Csm.{Csm, Module, get_controller_name, has_finalizer}
use csm_operator.Cluster.{OwnerReference, Deployment, Client}
use csm_operator.Watches.{Watches, stop_watch}
use csm_operator.Controller.{Parts, Reconciler, csm_finalizer_name}

unfoldable pub remove_finalizer : {W : Type 0} → Client W → Csm → Exec W (Unit {0})
remove_finalizer api cr =
    if has_finalizer cr csm_finalizer_name
    then (api.update_csm (record cr { finalizers = [] }) >>= λ _. pure tt)
    else pure tt

-- The references that do not point to the resource.
unfoldable pub other_owners : Csm → List OwnerReference → List OwnerReference
other_owners cr [] = []
other_owners cr (r ∷ rs) =
    let rest = other_owners cr rs in if text_eq r.uid cr.uid then rest else r ∷ rest

-- An empty slice is stored as nil.
abbrev pub or_nil : List OwnerReference → Option (List OwnerReference)
or_nil [] = none
or_nil (r ∷ rs) = some (r ∷ rs)

unfoldable pub without_owner : {W : Type 0} → Client W → Csm → Deployment → Exec W (Unit {0})
without_owner api cr d =
    let refs = get_or d.owner_references [] in
    let filtered = other_owners cr refs in
    if length filtered == length refs
    then pure tt
    else api.update_deployment (record d { owner_references = or_nil filtered })

unfoldable pub remove_deployment_owner_ref : {W : Type 0} → Client W → Csm → Exec W (Unit {0})
remove_deployment_owner_ref api cr =
    api.get_deployment cr.namespace (get_controller_name cr) >>= λ d. without_owner api cr d

-- *csm.Spec.Driver.ForceRemoveDriver, which `Reconcile` has filled in
unfoldable pub force_remove : Csm → Result Bool
force_remove cr = elim cr.spec.driver.force_remove_driver [ none ↦ err Err.panic | some b ↦ ok b ]

-- The driver is removed, or its deployment is let go; an error of the latter is only logged.
unfoldable pub release_driver : {W : Type 0} → Parts W → Csm → Bool → Exec W (Unit {0})
release_driver parts cr true =
    wrapping (codes "error when deleting driver") (parts.remove_driver cr)
release_driver parts cr false =
    attempt (remove_deployment_owner_ref parts.outside.api cr) >>= λ _. pure tt

-- The loop over the modules: one removal for each module with the flag.
unfoldable pub remove_modules : {W : Type 0} → Parts W → Csm → List Module → Exec W (Unit {0})
remove_modules parts cr [] = pure tt
remove_modules parts cr (m ∷ ms) =
    let rest = remove_modules parts cr ms in
    if m.force_remove_module
    then (wrapping (codes "error when deleting module") (parts.remove_module cr) >> rest)
    else rest

-- What is done in the cluster before the informers are stopped.
unfoldable pub clean_up : {W : Type 0} → Parts W → Csm → Exec W (Unit {0})
clean_up parts cr = lift (force_remove cr) >>= λ b.
    release_driver parts cr b
    >> remove_modules parts cr cr.spec.modules
    >> wrapping (codes "error when handling finalizer") (remove_finalizer parts.outside.api cr)

unfoldable pub stop_after :
    {W : Type 0} → Csm → Reconciler W → Result (Unit {0}) × W → Result (Unit {0}) × Reconciler W
stop_after cr r (err e, w) = (err e, record r { world = w })
stop_after cr r (ok t, w) = (ok t, record r { world = w; watches = stop_watch cr.name r.watches })

unfoldable pub delete_csm : {W : Type 0} → Parts W → Csm → Exec (Reconciler W) (Unit {0})
delete_csm parts cr r = stop_after cr r (clean_up parts cr r.world)
