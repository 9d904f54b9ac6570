-- ===== src/Samples/Store.antt =====
-- A store of objects as a function of the key, its client, and a driver's objects. The client cannot
-- read the keys that are blocked, and refuses to update an object to the body 0.
use csm_operator.Prelude.{
  ℕ, Bool, true, false, ◌||◌, Option, none, some, [], ◌≡◌, refl, ap, sym, arith, if◌then◌else◌,
  ◌==◌, is_some, Result, ok, err, Err,
}
use csm_operator.Prelude.Text.{Text, codes}
use csm_operator.Objects.{Key, key_eq, Object, ObjectClient, IsStore, is_not_found}
use csm_operator.Objects.Store.{key_eq_iff}
use csm_operator.Installation.{RbacYaml, ControllerYaml, NodeYaml}

abbrev pub World : Type 0
World = Key → Option Object

abbrev pub body_of : Option Object → Option ℕ
body_of none = none
body_of (some o) = some o.body

abbrev pub holds : World → Key → Option ℕ
holds w k = body_of (w k)

abbrev put : Object → World → World
put o w = λ j. if key_eq o.key j then some o else w j

abbrev remove : Key → World → World
remove k w = λ j. if key_eq k j then none else w j

abbrev read : Bool → Option Object → Result Object
read true o = err (Err.external 1)
read false none = err Err.not_found
read false (some o) = ok o

abbrev create : Object → Option Object → World → Result (Unit {0}) × World
create o (some old) w = (err Err.conflict, w)
create o none w = (ok tt, put o w)

abbrev update : Object → Option Object → World → Result (Unit {0}) × World
update o none w = (err Err.not_found, w)
update o (some old) w = if o.body == 0 then (err Err.forbidden, w) else (ok tt, put o w)

abbrev delete : Key → Option Object → World → Result (Unit {0}) × World
delete k none w = (err Err.not_found, w)
delete k (some old) w = (ok tt, remove k w)

abbrev pub store : (Key → Bool) → ObjectClient World
store blocked = record {
  get = λ k w. (read (blocked k) (w k), w);
  create = λ o w. create o (w o.key) w;
  update = λ o w. update o (w o.key) w;
  delete = λ k w. delete k (w k) w;
  json_merge = λ o old. ok (record o { resource_version = old.resource_version });
  get_typed = λ k w. (read (blocked k) (w k), w);
  apply_patch = λ o w. (ok tt, put o w);
}

-- The object of a result, and another where there is none.
abbrev ok_or_other : Object → Result Object → Object
ok_or_other other (ok o) = o
ok_or_other other (err e) = other

read-ok : (b : Bool) (r : Option Object) (o : Object) → read b r ≡ ok o → body_of r ≡ some o.body
read-ok true r o h = cc
read-ok false none o h = cc
read-ok false (some x) o h = ap (λ r. some (ok_or_other o r).body) h

read-missing : (b : Bool) (r : Option Object) → read b r ≡ err Err.not_found → body_of r ≡ none
read-missing true r h = cc
read-missing false none h = refl
read-missing false (some x) h = cc

put-holds :
    (o : Object) (w : World) (j : Key)
    → holds (put o w) j ≡ (if key_eq o.key j then some o.body else holds w j)
put-holds o w j = ground arith

remove-holds :
    (k : Key) (w : World) (j : Key)
    → holds (remove k w) j ≡ (if key_eq k j then none else holds w j)
remove-holds k w j = ground arith

create-holds :
    (o : Object) (r : Option Object) (w : World) (j : Key)
    → (create o r w).0 ≡ ok tt
    → holds (create o r w).1 j ≡ (if key_eq o.key j then some o.body else holds w j)
create-holds o (some old) w j h = cc
create-holds o none w j h = put-holds o w j

update-holds :
    (o : Object) (r : Option Object) (w : World) (j : Key)
    → (update o r w).0 ≡ ok tt
    → holds (update o r w).1 j ≡ (if key_eq o.key j then some o.body else holds w j)
update-holds o none w j h = cc
update-holds o (some old) w j h = ground (arith, put-holds o w j)

update_refused-holds :
    (o : Object) (r : Option Object) (w : World) (j : Key) (e : Err)
    → (update o r w).0 ≡ err e
    → holds (update o r w).1 j ≡ holds w j
update_refused-holds o none w j e h = refl
update_refused-holds o (some old) w j e h = ground arith

delete-holds :
    (k : Key) (w : World) (j : Key) (r : Option Object)
    → w k ≡ r
    → holds (delete k r w).1 j ≡ (if key_eq k j then none else holds w j)
delete-holds k w j none e = ground (arith, (key_eq_iff k j).0)
delete-holds k w j (some old) e = remove-holds k w j

patch-holds :
    (o : Object) (w : World) (j : Key)
    → is_some (holds (put o w) j) ≡ (key_eq o.key j || is_some (holds w j))
patch-holds o w j = ground arith

pub store-IsStore : (blocked : Key → Bool) → IsStore (store blocked) holds
store-IsStore blocked = record {
  get_world = λ k w. refl;
  get_typed_world = λ k w. refl;
  get_ok = λ k w o h. read-ok (blocked k) (w k) o h;
  get_missing = λ k w h. read-missing (blocked k) (w k) h;
  create_ok = λ o w j h. create-holds o (w o.key) w j h;
  update_ok = λ o w j h. update-holds o (w o.key) w j h;
  update_refused = λ o w j e h q. update_refused-holds o (w o.key) w j e h;
  delete_ok = λ k w j h. delete-holds k w j (w k) refl;
  delete_missing = λ k w j h. delete-holds k w j (w k) refl;
  apply_ok = λ o w j h. patch-holds o w j;
  merge_key = λ o old o' h. sym (ap (λ r. (ok_or_other o r).key) h);
}

-- A read that is not blocked finds the object, or fails because there is none.
read-answers : (r : Option Object) (e : Err) → read false r ≡ err e → is_not_found e ≡ true
read-answers none e h = ground arith
read-answers (some x) e h = cc

pub store-answers :
    (k : Key) (w : World) (e : Err)
    → ((store (λ _. false)).get k w).0 ≡ err e
    → is_not_found e ≡ true
store-answers k w e h = read-answers (w k) e h

abbrev pub empty_world : World
empty_world = λ k. none

abbrev pub nothing_blocked : Key → Bool
nothing_blocked k = false

abbrev pub object : Text → Text → Object
object kind name = record {
  key = record { kind = kind; namespace = codes "ns"; name = name };
  resource_version = [];
  template_labels = some [];
  body = 7;
}

-- A role without a name is none.
abbrev rbac : Text → RbacYaml
rbac name = record {
  service_account = object (codes "ServiceAccount") name;
  cluster_role = object (codes "ClusterRole") name;
  cluster_role_binding = object (codes "ClusterRoleBinding") name;
  role = object (codes "Role") [];
  role_binding = object (codes "RoleBinding") name;
}

abbrev pub node_yaml : NodeYaml
node_yaml = record { daemon_set = object (codes "DaemonSet") (codes "n"); rbac = rbac (codes "n") }

abbrev pub controller_yaml : ControllerYaml
controller_yaml = record {
  deployment = object (codes "Deployment") (codes "c");
  rbac = rbac (codes "c");
}

abbrev pub csi_driver : Object
csi_driver = object (codes "CSIDriver") (codes "d")

abbrev pub params : Object
params = object (codes "ConfigMap") (codes "p")

-- An object under every key.
abbrev pub full_world : World
full_world = λ k. some (record csi_driver { key = k })
