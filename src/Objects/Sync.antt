-- ===== src/Objects/Sync.antt =====
-- The functions of pkg/resources: each brings one object of a driver into the cluster.
pub mod Adds
use csm_operator.Prelude.{Bool, Option, none, some, [], if◌then◌else◌, Result, ok, err, Err}
use csm_operator.Prelude.Text.{Text, codes, is_empty}
use csm_operator.Prelude.Dict.{Dict, insert}
use csm_operator.Exec.{Exec, ◌>>=◌, ◌>>◌, pure, raise, attempt, wrapping}
use csm_operator.Objects.{Key, Object, ObjectClient, is_not_found}

-- The branches behind `client.Get`: what is done where there is no object, and where there is one.
unfoldable pub create_or :
    {W : Type 0}
    → Exec W (Unit {0})
    → (Object → Exec W (Unit {0}))
    → Result Object
    → Exec W (Unit {0})
create_or on_missing on_found (ok found) = on_found found
create_or on_missing on_found (err e) = if is_not_found e then on_missing else raise e

unfoldable pub sync_config_map : {W : Type 0} → ObjectClient W → Object → Exec W (Unit {0})
sync_config_map c o =
    attempt (c.get o.key)
    >>= create_or (wrapping (codes "creating configmap") (c.create o)) λ found.
      wrapping (codes "updating configmap")
        (c.update (record o { resource_version = found.resource_version }))

-- A CSIDriver has no namespace, and is looked for without one.
unfoldable pub sync_csi_driver : {W : Type 0} → ObjectClient W → Object → Exec W (Unit {0})
sync_csi_driver c o =
    attempt (c.get (record o.key { namespace = [] }))
    >>= create_or (wrapping (codes "creating csidriver object") (c.create o)) λ found.
      wrapping (codes "updating csidriver object")
        (c.update (record o { resource_version = found.resource_version }))

-- A new role is read again, and an error of that is returned.
unfoldable pub create_and_get : {W : Type 0} → ObjectClient W → Object → Exec W (Unit {0})
create_and_get c o = c.create o >> (c.get o.key >>= λ found. pure tt)

unfoldable pub sync_cluster_role : {W : Type 0} → ObjectClient W → Object → Exec W (Unit {0})
sync_cluster_role c o =
    attempt (c.get o.key) >>= create_or (create_and_get c o) (λ found. c.update o)

-- A role without a name is none at all.
unfoldable pub sync_role : {W : Type 0} → ObjectClient W → Object → Exec W (Unit {0})
sync_role c o = if is_empty o.key.name then pure tt else sync_cluster_role c o

unfoldable pub sync_cluster_role_bindings :
    {W : Type 0} → ObjectClient W → Object → Exec W (Unit {0})
sync_cluster_role_bindings c o =
    attempt (c.get o.key) >>= create_or (c.create o) (λ found. c.update o)

unfoldable pub sync_role_bindings : {W : Type 0} → ObjectClient W → Object → Exec W (Unit {0})
sync_role_bindings c o = if is_empty o.key.name then pure tt else sync_cluster_role_bindings c o

-- A service account that is there is left as it is.
unfoldable pub sync_service_account : {W : Type 0} → ObjectClient W → Object → Exec W (Unit {0})
sync_service_account c o =
    attempt (c.get o.key)
    >>= create_or (wrapping (codes "creating serviceaccount") (c.create o)) (λ found. pure tt)

abbrev pub labelled : Text → Dict Text → Object → Object
labelled csm_name labels o = record o {
  template_labels = some (insert labels (codes "csm") csm_name);
}

-- A nil map of labels is written to, which panics.
unfoldable pub apply_deployment :
    {W : Type 0} → ObjectClient W → Text → Object → Option (Dict Text) → Exec W (Unit {0})
apply_deployment c csm_name o none = raise Err.panic
apply_deployment c csm_name o (some labels) = c.apply_patch (labelled csm_name labels o)

-- An error of the read is only logged.
unfoldable pub sync_deployment : {W : Type 0} → ObjectClient W → Text → Object → Exec W (Unit {0})
sync_deployment c csm_name o =
    attempt (c.get_typed o.key) >>= λ _. apply_deployment c csm_name o o.template_labels

unfoldable pub apply_daemon_set :
    {W : Type 0} → ObjectClient W → Text → Object → Option (Dict Text) → Exec W (Unit {0})
apply_daemon_set c csm_name o none = c.apply_patch (labelled csm_name [] o)
apply_daemon_set c csm_name o (some labels) = c.apply_patch (labelled csm_name labels o)

unfoldable pub sync_daemonset : {W : Type 0} → ObjectClient W → Text → Object → Exec W (Unit {0})
sync_daemonset c csm_name o =
    attempt (c.get_typed o.key)
    >>= create_or (apply_daemon_set c csm_name o o.template_labels)
        (λ found. apply_daemon_set c csm_name o o.template_labels)
