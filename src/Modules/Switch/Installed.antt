-- ===== src/Modules/Switch/Installed.antt =====
-- What stands in the cluster where the reconciler's checks pass.
use csm_operator.Prelude.{true, List, ◌≡◌, all, ok, wrap-eq-ok, inl}
use csm_operator.Prelude.Text.{text_eq, text_eq_iff, codes}
use csm_operator.Exec.{Exec, >>=-ok, wrapping, pure}
use csm_operator.Csm.{Csm, power_scale}
use csm_operator.Files.{OperatorConfig}
use csm_operator.Controller.{Parts}
use csm_operator.Controller.Prechecks.{pre_checks, check_driver_type, is_driver_type}
use csm_operator.Drivers.Certificates.{CertSource, get_apply_cert_volume}
use csm_operator.Drivers.Prechecks.{driver_precheck, precheck_power_scale}
use csm_operator.Drivers.Prechecks.Secrets.{IsReader, exists, precheck-exists}
use csm_operator.Modules.Switch.{Tools, with_prechecks}

module _ {W : Type 0} (tools : Tools W) (op : OperatorConfig) (parts : Parts W) (cr : Csm)
    (w : W) where
  -- The driver's check, behind the test of the switch.
  abbrev wrapped_check : Exec W Csm
  wrapped_check =
      wrapping (codes "failed driver validation") (driver_precheck tools.get tools.yaml op cr)

  wrapped_check-passed :
      text_eq cr.spec.driver.csi_driver_type power_scale ≡ true
      → {checked : Csm} → (wrapped_check w).0 ≡ ok checked
      → (precheck_power_scale tools.get op cr w).0 ≡ ok tt
  unfolding driver_precheck
  wrapped_check-passed t e =
      let (u, passed, k) =
        >>=-ok (precheck_power_scale tools.get op cr) (λ u. pure cr) w
          (wrap-eq-ok (codes "failed driver validation") _ (rw (t) at e)) in
      passed

  check_driver_type-passed :
      text_eq cr.spec.driver.csi_driver_type power_scale ≡ true
      → {checked : Csm} → (check_driver_type (with_prechecks tools op parts) cr w).0 ≡ ok checked
      → (precheck_power_scale tools.get op cr w).0 ≡ ok tt
  unfolding check_driver_type is_driver_type
  check_driver_type-passed t e =
      let (checked, passed, k) = >>=-ok wrapped_check _ w (rw (t) at e) in
      wrapped_check-passed t passed

-- Of a PowerScale resource: behind checks of the reconciler that pass, with the prechecks of this model
-- and reads that change nothing and fail only on a secret that is not there, each secret of which the
-- driver's volume `certs` is made exists.
pub pre_checks-exists :
    {W : Type 0} (tools : Tools W)
    → IsReader tools.get
    → (op : OperatorConfig) (parts : Parts W) (cr : Csm) (w : W) {cr' : Csm}
    → (sources : List CertSource) → cr.spec.driver.csi_driver_type ≡ power_scale
    → get_apply_cert_volume cr ≡ ok sources
    → (pre_checks (with_prechecks tools op parts) op cr w).0 ≡ ok cr'
    → all (λ s. exists tools.get cr.namespace w s.secret_name) sources ≡ true
unfolding pre_checks
pre_checks-exists tools reads op parts cr w sources t made h =
    let (checked, e, h') = >>=-ok (check_driver_type (with_prechecks tools op parts) cr) _ w h in
    precheck-exists tools.get reads op cr w sources
      (inl (made, check_driver_type-passed tools op parts cr w ((text_eq_iff _ _).1 t) e))
