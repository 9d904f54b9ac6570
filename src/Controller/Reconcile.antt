-- ===== src/Controller/Reconcile.antt =====
-- `Reconcile`, and the informers' filter `informerUpdate`. A Go `return ctrl.Result{}, err` is an
-- error of the model; the results with a flag are values.
pub mod Outcomes
pub mod Sound
pub mod Done
use csm_operator.Prelude.{
  ℕ, ◌+◌, ◌%◌, ◌^◌, Bool, true, false, not, ◌&&◌, ◌||◌, Option, none, some, List, [], ◌∷◌,
  if◌then◌else◌, Result, ok, err, Err, wrap, is_some,
}
use csm_operator.Prelude.Text.{Text, codes, text_eq, is_empty}
use csm_operator.Prelude.Dict.{Dict, lookup}
use csm_operator.Exec.{wrapping, Exec, ◌>>=◌, ◌>>◌, pure, raise, lift, attempt}
use csm_operator.Csm.{
  Csm, Module, authorization_server, creating, invalid_config, is_being_deleted, has_finalizer,
  has_module,
}
use csm_operator.Csm.Components.{load_default_components}
use csm_operator.Files.{OperatorConfig}
use csm_operator.Upgrade.{get_version, apply_config_version_annotations}
use csm_operator.Cluster.{Client}
use csm_operator.Status.Calculate.{
  set_state, update_status, handle_validation_error, handle_success,
}
use csm_operator.Watches.{start_watch}
use csm_operator.Controller.{Parts, Reconciler, csm_finalizer_name}
use csm_operator.Controller.Prechecks.{pre_checks}
use csm_operator.Controller.Deletion.{delete_csm}

-- reconcile.Result, and the error beside it
pub record Outcome : Type 0 where
  pub requeue : Bool
  pub error : Option Err

abbrev pub finished : Outcome
finished = record { requeue = false; error = none }

abbrev pub again : Err → Outcome
again e = record { requeue = true; error = some e }

-- A call that acts on the world alone.
unfoldable pub on_world {ℓ} : {W : Type 0} {A : Type ℓ} → Exec W A → Exec (Reconciler W) A
on_world m r = let (a, w) = m r.world in (a, record r { world = w })

unfoldable pub add_finalizer : {W : Type 0} → Client W → Csm → Exec W Csm
add_finalizer api cr =
    api.update_csm (set_state (record cr { finalizers = csm_finalizer_name ∷ [] }) creating)

unfoldable pub ensure_finalizer : {W : Type 0} → Client W → Csm → Exec W Csm
ensure_finalizer api cr =
    if has_finalizer cr csm_finalizer_name
    then pure cr
    else wrapping (codes "error when adding finalizer") (add_finalizer api cr)

abbrev pub with_force : Csm → Csm
with_force cr = record cr {
  spec = record cr.spec {
    driver = record cr.spec.driver {
      force_remove_driver = elim cr.spec.driver.force_remove_driver [
        | none ↦ some true
        | some b ↦ some b
      ];
    };
  };
}

-- `break` ends the loop behind the first authorization server.
unfoldable pub set_server_version : Text → List Module → List Module
set_server_version version [] = []
set_server_version version (m ∷ ms) =
    if text_eq m.name authorization_server
    then record m { config_version = version } ∷ ms
    else m ∷ set_server_version version ms

-- The version is asked for only where there is a server.
unfoldable pub fill_server_version : Csm → OperatorConfig → Result Csm
fill_server_version cr op =
    if has_module cr authorization_server
    then (elim (get_version cr op) [
      | err e ↦ err e
      | ok version ↦ ok (record cr {
        spec = record cr.spec { modules = set_server_version version cr.spec.modules };
      })
    ])
    else ok cr

-- What is filled in before the checks.
unfoldable pub fill_in : Csm → OperatorConfig → Result Csm
fill_in cr op = elim (load_default_components (with_force cr) op.default_components) [
  | err e ↦ err e
  | ok cr' ↦ fill_server_version cr' op
]

unfoldable pub record_version : {W : Type 0} → Client W → Csm → OperatorConfig → Exec W Csm
record_version api cr op =
    let (cr', updated) = apply_config_version_annotations cr op in
    if updated then api.update_csm cr' else pure cr'

-- The swap of the stop channels once `ContentWatch` has made one.
unfoldable pub swap_watch : {W : Type 0} → Csm → Exec (Reconciler W) (Unit {0})
swap_watch cr r = (ok tt, record r { watches = start_watch cr.name r.watches })

unfoldable pub watch_content : {W : Type 0} → Parts W → Csm → Exec (Reconciler W) Outcome
watch_content parts cr = on_world (attempt (parts.content_watch cr)) >>= λ started. elim started [
  | err e ↦ pure (again e)
  | ok _ ↦ swap_watch cr >> pure finished
]

-- The status is written again behind the installation. In a run of the unit tests an error of that
-- is passed over.
unfoldable pub complete :
    {W : Type 0} → Parts W → Bool → OperatorConfig → Csm → Exec (Reconciler W) Outcome
complete parts unit_test op cr = on_world (update_status parts.outside cr op none) >>= λ result.
    let (cr', e) = result in
    elim e [
      | some x ↦ if not unit_test then pure (again x) else watch_content parts cr'
      | none ↦ watch_content parts cr'
    ]

unfoldable pub after_sync :
    {W : Type 0}
    → Parts W
    → Bool
    → OperatorConfig
    → Csm
    → Bool
    → Result (Unit {0})
    → Exec (Reconciler W) Outcome
after_sync parts unit_test op cr requeue (err e) = pure (again e)
after_sync parts unit_test op cr true (ok _) =
    pure (again (Err.message (codes "CSM state is failed")))
after_sync parts unit_test op cr false (ok _) = complete parts unit_test op cr

-- A resource that is not being deleted, behind the checks.
unfoldable pub install :
    {W : Type 0} → Parts W → Bool → OperatorConfig → Csm → Exec (Reconciler W) Outcome
install parts unit_test op cr = on_world (ensure_finalizer parts.outside.api cr) >>= λ finalized.
    on_world (record_version parts.outside.api finalized op) >>= λ versioned.
    on_world (handle_success parts.outside unit_test versioned op) >>= λ success.
    on_world (attempt (parts.sync_csm success.0)) >>= λ synced.
    after_sync parts unit_test op success.0 success.1 synced

unfoldable pub proceed :
    {W : Type 0} → Parts W → Bool → OperatorConfig → Csm → Exec (Reconciler W) Outcome
proceed parts unit_test op cr =
    if is_being_deleted cr
    then (delete_csm parts cr >> pure finished)
    else install parts unit_test op cr

-- A failed check is answered by `HandleValidationError`: the error, with nothing put back.
unfoldable pub reject : {W : Type 0} → Parts W → Csm → Err → Exec (Reconciler W) Outcome
reject parts cr e r =
    let (cr', w) =
      handle_validation_error parts.outside.api (set_state cr invalid_config) r.world in
    (err e, record r { world = w })

unfoldable pub checked :
    {W : Type 0} → Parts W → Bool → OperatorConfig → Csm → Result Csm → Exec (Reconciler W) Outcome
checked parts unit_test op cr (err e) = reject parts cr e
checked parts unit_test op cr (ok cr') = proceed parts unit_test op cr'

-- A resource that was read. The checks may edit its specification, and where they fail only its
-- status is written, so the edits do not matter then.
unfoldable pub reconcile_csm :
    {W : Type 0} → Parts W → Bool → OperatorConfig → Csm → Exec (Reconciler W) Outcome
reconcile_csm parts unit_test op stored = lift (fill_in stored op) >>= λ cr.
    on_world (attempt (pre_checks parts op cr)) >>= λ result. checked parts unit_test op cr result

-- No error of reading the resource is returned.
unfoldable pub after_read :
    {W : Type 0} → Parts W → Bool → OperatorConfig → Result Csm → Exec (Reconciler W) Outcome
after_read parts unit_test op (err e) = pure finished
after_read parts unit_test op (ok cr) = reconcile_csm parts unit_test op cr

-- The update count is an int32, kept as its bit pattern.
unfoldable pub reconcile :
    {W : Type 0} → Parts W → Bool → OperatorConfig → Text → Text → Exec (Reconciler W) Outcome
reconcile parts unit_test op namespace name r =
    let counted = record r { update_count = (r.update_count + 1) % 2 ^ 32 } in
    let (found, r') = on_world (parts.outside.api.get_csm namespace name) counted in
    after_read parts unit_test op found r'

-- The labels "csm" and "csmNamespace" of an object that an informer reports.
unfoldable pub informer_passes : Csm → Dict Text → Bool
informer_passes cr labels = elim (lookup labels (codes "csm")) [
  | none ↦ false
  | some csm_name ↦ elim (lookup labels (codes "csmNamespace")) [
    | none ↦ false
    | some csm_namespace ↦
        not (is_empty csm_name || is_empty csm_namespace) && text_eq csm_name cr.name
  ]
]
