-- ===== src/Objects.antt =====
-- The Kubernetes objects that the operator installs, and the clients that carry them to the API
-- server: controller-runtime's `client.Client` and client-go's clientset, which are not part of the
-- repository. What the code relies on of them is the record `IsStore`.
pub mod Apply
pub mod Sync
pub mod Store
use csm_operator.Prelude.{
  ℕ, Bool, ◌&&◌, ◌||◌, Option, none, some, List, ◌≡◌, ◌⊎◌, if◌then◌else◌, is_some, any, Result, ok,
  err, Err,
}
use csm_operator.Prelude.Text.{Text, text_eq}
use csm_operator.Prelude.Dict.{Dict}
use csm_operator.Exec.{Exec}

-- An object's kind, and types.NamespacedName
pub record Key : Type 0 where
  pub kind : Text
  pub namespace : Text
  pub name : Text

unfoldable pub key_eq : Key → Key → Bool
key_eq a b = text_eq a.kind b.kind && text_eq a.namespace b.namespace && text_eq a.name b.name

-- An object. The labels are those of the pod template of a deployment or daemon set, with `none` for
-- a nil map; the body stands for all that the code passes on whole.
pub record Object : Type 0 where
  pub key : Key
  pub resource_version : Text
  pub template_labels : Option (Dict Text)
  pub body : ℕ

-- The calls. The last two are the clientset's; `json_merge new old` is `json.Marshal` of the new
-- object and `json.Unmarshal` of that into the old one, and an error where either has one.
pub record ObjectClient (W : Type 0) : Type 0 where
  pub get : Key → Exec W Object
  pub create : Object → Exec W (Unit {0})
  pub update : Object → Exec W (Unit {0})
  pub delete : Key → Exec W (Unit {0})
  pub json_merge : Object → Object → Result Object
  pub get_typed : Key → Exec W Object
  pub apply_patch : Object → Exec W (Unit {0})

-- The two errors of an update that the code passes over.
abbrev pub is_refusal : Err → Bool
is_refusal Err.forbidden = Bool.true
is_refusal Err.invalid = Bool.true
is_refusal e = Bool.false

-- k8serror.IsNotFound
abbrev pub is_not_found : Err → Bool
is_not_found Err.not_found = Bool.true
is_not_found e = Bool.false

-- What the API server documents, where no other client changes the objects, reads see all writes and
-- no object has a finalizer: `holds w k` is the body of the object that is stored under `k`.
pub record IsStore {W : Type 0} (c : ObjectClient W) (holds : W → Key → Option ℕ) : Type 0 where
  pub get_world : (k : Key) (w : W) → (c.get k w).1 ≡ w
  pub get_typed_world : (k : Key) (w : W) → (c.get_typed k w).1 ≡ w
  pub get_ok : (k : Key) (w : W) (o : Object) → (c.get k w).0 ≡ ok o → holds w k ≡ some o.body
  pub get_missing : (k : Key) (w : W) → (c.get k w).0 ≡ err Err.not_found → holds w k ≡ none
  pub create_ok :
      (o : Object) (w : W) (j : Key)
      → (c.create o w).0 ≡ ok tt
      → holds (c.create o w).1 j ≡ (if key_eq o.key j then some o.body else holds w j)
  pub update_ok :
      (o : Object) (w : W) (j : Key)
      → (c.update o w).0 ≡ ok tt
      → holds (c.update o w).1 j ≡ (if key_eq o.key j then some o.body else holds w j)
  pub update_refused :
      (o : Object) (w : W) (j : Key) (e : Err)
      → (c.update o w).0 ≡ err e
      → is_refusal e ≡ Bool.true
      → holds (c.update o w).1 j ≡ holds w j
  pub delete_ok :
      (k : Key) (w : W) (j : Key)
      → (c.delete k w).0 ≡ ok tt
      → holds (c.delete k w).1 j ≡ (if key_eq k j then none else holds w j)
  pub delete_missing :
      (k : Key) (w : W) (j : Key)
      → (c.delete k w).0 ≡ err Err.not_found
      → holds (c.delete k w).1 j ≡ (if key_eq k j then none else holds w j)
  pub apply_ok :
      (o : Object) (w : W) (j : Key)
      → (c.apply_patch o w).0 ≡ ok tt
      → is_some (holds (c.apply_patch o w).1 j) ≡ (key_eq o.key j || is_some (holds w j))
  pub merge_key : (o old o' : Object) → c.json_merge o old ≡ ok o' → o'.key ≡ o.key
