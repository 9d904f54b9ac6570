-- ===== src/Installation/Driver/Roundtrip.antt =====
-- The installation of a driver and its removal, one behind the other.
use csm_operator.Prelude.{
  ℕ, true, false, not, ◌&&◌, ◌||◌, Option, some, List, [], ◌∷◌, ◌++◌, ◌≡◌, subst, arith, any,
  if◌then◌else◌,
}
use csm_operator.Prelude.Text.{Text, is_empty}
use csm_operator.Exec.{Exec, ◌>>◌}
use csm_operator.Objects.{Key, key_eq, Object, ObjectClient, IsStore}
use csm_operator.Objects.Store.{named, Changes, Removes, >>-Changes}
use csm_operator.Objects.Sync.Adds.{named_keys}
use csm_operator.Installation.{NodeYaml, ControllerYaml, DriverConfig}
use csm_operator.Installation.Driver.{sync_driver, remove_driver_from_cluster}
use csm_operator.Installation.Driver.Installed.{driver_keys, sync_driver-Changes}
use csm_operator.Installation.Driver.Removed.{
  config_keys, Answers, remove_driver_from_cluster-Removes,
}

-- What `SyncCSM` takes apart.
abbrev pub whole : Object → Object → NodeYaml → ControllerYaml → DriverConfig
whole driver config_map node controller = record {
  driver = some driver;
  config_map = some config_map;
  node = some node;
  controller = some controller;
}

named-named_keys :
    (o : Object) (ls : List Key) (j : Key)
    → named (named_keys o ++ ls) j ≡ true
    → (key_eq o.key j || named ls j) ≡ true
unfolding any
named-named_keys o ls j =
    elim (is_empty o.key.name)
      as (λ b.
        named ((if b then [] else o.key ∷ []) ++ ls) j ≡ true
        → (key_eq o.key j || named ls j) ≡ true) [ true ↦ λ h. ground arith | false ↦ λ h. h ]

-- The keys behind the roles, behind one another.
abbrev tail_keys : Object → Object → ControllerYaml → List Key
tail_keys driver config_map controller =
    driver.key ∷ config_map.key ∷ controller.deployment.key ∷ []

-- A removal covers what the installation brings in.
driver_keys-covered :
    (driver config_map : Object) (node : NodeYaml) (controller : ControllerYaml) (j : Key)
    → named (driver_keys driver config_map node controller) j ≡ true
    → named (config_keys (whole driver config_map node controller)) j ≡ true
unfolding any
driver_keys-covered driver config_map node controller j =
    let r4 = tail_keys driver config_map controller in
    let r3 = named_keys controller.rbac.role_binding ++ r4 in
    let r2 = named_keys node.rbac.role_binding ++ r3 in
    let r1 = named_keys controller.rbac.role ++ r2 in
    ground (
      arith,
      named-named_keys node.rbac.role r1 j,
      named-named_keys controller.rbac.role r2 j,
      named-named_keys node.rbac.role_binding r3 j,
      named-named_keys controller.rbac.role_binding r4 j,
    )

some_inj {ℓ} : {A : Type ℓ} {a b : A} → some a ≡ some b → a ≡ b
some_inj e = cc

pub of_some {ℓ} : {A : Type ℓ} (P : A → Type 0) (a : A) → P a → (b : A) → some a ≡ some b → P b
of_some P a p b e = subst P (some_inj e) p

-- Where the daemon set and the deployment can be looked for, and the step for disaster recovery
-- changes no key: an installation and a removal behind it that succeed leave the keys that were
-- there before, less those of the driver's objects.
pub remove_driver-sync_driver :
    {W : Type 0} (c : ObjectClient W) (holds : W → Key → Option ℕ)
    → IsStore c holds
    → (csm_name : Text) (disaster_recovery : Exec W (Unit {0})) (driver config_map : Object)
      (node : NodeYaml) (controller : ControllerYaml)
    → Changes holds (λ j b. b) disaster_recovery
    → Answers c node.daemon_set.key
    → Answers c controller.deployment.key
    → Removes holds (config_keys (whole driver config_map node controller)) (
        sync_driver c csm_name disaster_recovery driver config_map node controller
        >> remove_driver_from_cluster c (whole driver config_map node controller))
unfolding any
remove_driver-sync_driver {W} c holds s csm_name dr driver config_map node controller p q r w j h =
    let config = whole driver config_map node controller in
    ground (
      arith,
      driver_keys-covered driver config_map node controller j,
      >>-Changes holds
          (λ j b.
            key_eq node.daemon_set.key j
            || (named (driver_keys driver config_map node controller) j || b))
          (λ j b. not (named (config_keys config) j) && b) _ _
          (sync_driver-Changes c holds s csm_name (λ j b. b) dr driver config_map node controller p)
          (remove_driver_from_cluster-Removes c holds s config
            (of_some (λ (n : NodeYaml). Answers c n.daemon_set.key) node q)
            (of_some (λ (n : ControllerYaml). Answers c n.deployment.key) controller r))
          w j h,
    )
