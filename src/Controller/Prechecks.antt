-- ===== src/Controller/Prechecks.antt =====
-- `PreChecks`.
pub mod Passing
use csm_operator.Prelude.{
  Bool, true, false, ◌&&◌, ◌||◌, Option, none, some, List, [], ◌∷◌, ◌++◌, if◌then◌else◌, any,
  Result, ok, err, Err, wrap,
}
use csm_operator.Prelude.Text.{Text, codes, text_eq}
use csm_operator.Exec.{Exec, ◌>>=◌, ◌>>◌, pure, raise, lift, wrapping}
use csm_operator.Csm.{
  Csm, Module, authorization, authorization_server, replication, resiliency, observability,
  reverse_proxy, power_flex, power_max, power_scale, unity, power_store, cosi, has_module,
}
use csm_operator.Cluster.{OwnerReference, Deployment}
use csm_operator.Files.{OperatorConfig}
use csm_operator.Upgrade.{check_upgrade}
use csm_operator.Controller.{Parts}

-- The cases of the switch over the driver's type.
unfoldable pub is_driver_type : Text → Bool
is_driver_type t =
    text_eq t power_scale
    || text_eq t power_flex
    || text_eq t power_store
    || text_eq t unity
    || text_eq t power_max
    || text_eq t cosi

-- A driver's precheck may edit the resource. Zones are checked for PowerFlex alone.
unfoldable pub check_driver_type : {W : Type 0} → Parts W → Csm → Exec W Csm
check_driver_type parts cr =
    if is_driver_type cr.spec.driver.csi_driver_type
    then (wrapping (codes "failed driver validation") (parts.driver_precheck cr) >>= λ cr'.
        if text_eq cr.spec.driver.csi_driver_type power_flex
        then (wrapping (codes "error during zone validation") (parts.zone_validation cr')
            >> pure cr')
        else pure cr')
    else if has_module cr authorization_server
    then pure cr
    else raise (Err.message (codes "unsupported driver type"))

-- The reference that is looked for has the resource's name; nil references are not looked at.
unfoldable pub owner_found : Csm → Option (List OwnerReference) → Bool
owner_found cr none = true
owner_found cr (some refs) = any (λ r. text_eq r.name cr.name) refs

unfoldable pub owner_check : Csm → Result Deployment → Result (Unit {0})
owner_check cr (err e) = ok tt
owner_check cr (ok d) =
    if owner_found cr d.owner_references
    then ok tt
    else err (Err.message (codes "required Owner reference not found. Please re-install driver "))

unfoldable pub check_owner : {W : Type 0} → Parts W → Csm → Exec W (Unit {0})
check_owner parts cr w =
    let (r, w') =
      parts.outside.api.get_deployment cr.namespace (cr.name ++ codes "-controller") w in
    (owner_check cr r, w')

unfoldable pub is_module_type : Text → Bool
is_module_type t =
    text_eq t authorization
    || text_eq t authorization_server
    || text_eq t replication
    || text_eq t resiliency
    || text_eq t observability
    || text_eq t reverse_proxy

-- The module behind its check, which may have edited its components.
unfoldable pub check_module : {W : Type 0} → Parts W → Csm → Module → Exec W Module
check_module parts cr m =
    if m.enabled
    then (if is_module_type m.name
        then (wrapping (codes "failed module validation") (parts.module_precheck cr m) >>= λ cs.
            pure (record m { components = cs }))
        else raise (Err.message (codes "unsupported module type")))
    else pure m

abbrev pub put_modules : List Module → Csm → Csm
put_modules ms cr = record cr { spec = record cr.spec { modules = ms } }

-- The loop over the modules, behind those that were checked: what a check edits is in the resource that
-- the next ones read.
unfoldable pub check_modules : {W : Type 0} → Parts W → Csm → List Module → List Module → Exec W Csm
check_modules parts cr done [] = pure cr
check_modules parts cr done (m ∷ ms) = check_module parts cr m >>= λ m'.
    check_modules parts (put_modules (done ++ m' ∷ ms) cr) (done ++ m' ∷ []) ms

-- The checks behind that of the upgrade.
unfoldable pub later_checks : {W : Type 0} → Parts W → Csm → Exec W Csm
later_checks parts cr =
    lift (
      wrap (codes "failed custom registry validation")
        (parts.validate_custom_registry cr.spec.custom_registry))
    >> check_owner parts cr
    >> check_modules parts cr [] cr.spec.modules

-- An upgrade that is not valid, without an error, ends the checks with success.
unfoldable pub pre_checks : {W : Type 0} → Parts W → OperatorConfig → Csm → Exec W Csm
pre_checks parts op cr = check_driver_type parts cr >>= λ cr'.
    lift (wrap (codes "failed upgrade check") (check_upgrade cr' op)) >>= λ valid.
    if valid then later_checks parts cr' else pure cr'
