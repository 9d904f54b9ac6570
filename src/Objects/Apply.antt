-- ===== src/Objects/Apply.antt =====
-- `DeleteObject`, `ApplyObject` and `ApplyCTRLObject` of pkg/operatorutils/utils.go, and
-- `applyDeleteObjects` of pkg/modules/commonconfig.go.
pub mod Upsert
pub mod Outcome
use csm_operator.Prelude.{
  Bool, true, false, ◌||◌, List, [], ◌∷◌, if◌then◌else◌, Result, ok, err, Err,
}
use csm_operator.Prelude.Text.{Text}
use csm_operator.Exec.{Exec, ◌>>=◌, ◌>>◌, pure, raise, attempt}
use csm_operator.Objects.{Key, Object, ObjectClient, is_refusal, is_not_found}

-- `if err != nil && !k8serror.IsNotFound(err) { return err }; return nil`
unfoldable pub unless_missing : {W : Type 0} → Result (Unit {0}) → Exec W (Unit {0})
unless_missing (ok t) = pure tt
unless_missing (err e) = if is_not_found e then pure tt else raise e

unfoldable pub delete_found :
    {W : Type 0} → ObjectClient W → Key → Result Object → Exec W (Unit {0})
delete_found c k (ok o) = attempt (c.delete k) >>= unless_missing
delete_found c k (err e) = if is_not_found e then pure tt else raise e

unfoldable pub delete_object : {W : Type 0} → ObjectClient W → Key → Exec W (Unit {0})
delete_object c k = attempt (c.get k) >>= delete_found c k

-- A refused update is logged, and the object stays as it is.
unfoldable pub unless_refused : {W : Type 0} → Result (Unit {0}) → Exec W (Unit {0})
unless_refused (ok t) = pure tt
unless_refused (err e) = if is_refusal e then pure tt else raise e

-- The object over the one that was found, and the object itself where that cannot be made.
unfoldable pub merged : {W : Type 0} → ObjectClient W → Object → Object → Object
merged c o found = elim (c.json_merge o found) [ ok o' ↦ o' | err e ↦ o ]

unfoldable pub apply_found :
    {W : Type 0} → ObjectClient W → Object → Result Object → Exec W (Unit {0})
apply_found c o (ok found) = attempt (c.update (merged c o found)) >>= unless_refused
apply_found c o (err e) = if is_not_found e then c.create o else raise e

unfoldable pub apply_object : {W : Type 0} → ObjectClient W → Object → Exec W (Unit {0})
apply_object c o = attempt (c.get o.key) >>= apply_found c o

unfoldable pub apply_ctrl_found :
    {W : Type 0} → ObjectClient W → Object → Result Object → Exec W (Unit {0})
apply_ctrl_found c o (ok found) = c.update o
apply_ctrl_found c o (err e) = if is_not_found e then c.create o else raise e

unfoldable pub apply_ctrl_object : {W : Type 0} → ObjectClient W → Object → Exec W (Unit {0})
apply_ctrl_object c o = attempt (c.get o.key) >>= apply_ctrl_found c o

-- The loop over the objects of a manifest, which ends with the first error.
unfoldable pub apply_delete_objects :
    {W : Type 0} → ObjectClient W → Bool → List Object → Exec W (Unit {0})
apply_delete_objects c is_deleting [] = pure tt
apply_delete_objects c is_deleting (o ∷ os) =
    let rest = apply_delete_objects c is_deleting os in
    (if is_deleting then delete_object c o.key else apply_object c o) >> rest
