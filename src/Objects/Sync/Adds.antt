-- ===== src/Objects/Sync/Adds.antt =====
-- What the functions of pkg/resources add to a store of objects.
use csm_operator.Prelude.{
  ℕ, true, false, ◌||◌, Option, none, some, List, [], ◌∷◌, ◌≡◌, refl, arith, if◌then◌else◌, any,
  Result, ok, err, wrap-eq-ok,
}
use csm_operator.Prelude.Text.{Text, codes, is_empty}
use csm_operator.Prelude.Dict.{Dict}
use csm_operator.Exec.{Exec, ◌>>=◌, >>=-elim, pure, raise, attempt, wrapping}
use csm_operator.Objects.{Key, key_eq, Object, ObjectClient, IsStore}
use csm_operator.Objects.Store.{key_eq_iff, has, read-elim, Adds, pure-Adds}
use csm_operator.Objects.Sync.{
  labelled, create_or, sync_config_map, sync_csi_driver, create_and_get, sync_cluster_role,
  sync_role, sync_cluster_role_bindings, sync_role_bindings, sync_service_account, sync_deployment,
  apply_deployment, apply_daemon_set, sync_daemonset,
}

-- A role or a role binding without a name adds nothing.
abbrev pub named_keys : Object → List Key
named_keys o = if is_empty o.key.name then [] else o.key ∷ []

module _ {W : Type 0} (c : ObjectClient W) (holds : W → Key → Option ℕ) (s : IsStore c holds) where
  -- A call that succeeds adds the key, where it was not there before.
  abbrev AddsAt : Key → Exec W (Unit {0}) → W → Type 0
  AddsAt k m w = (j : Key) → (m w).0 ≡ ok tt → has holds (m w).1 j ≡ (key_eq k j || has holds w j)

  AddsAt-named :
      (k : Key) (m : Exec W (Unit {0})) → ((w : W) → AddsAt k m w) → Adds holds (k ∷ []) m
  unfolding any
  AddsAt-named k m f w j h = ground (arith, f w j h)

  create-AddsAt : (o : Object) (w : W) → AddsAt o.key (c.create o) w
  create-AddsAt o w j h = ground (arith, s.create_ok o w j h)

  update-AddsAt : (o : Object) (w : W) → AddsAt o.key (c.update o) w
  update-AddsAt o w j h = ground (arith, s.update_ok o w j h)

  wrapped_create-AddsAt : (t : Text) (o : Object) (w : W) → AddsAt o.key (wrapping t (c.create o)) w
  wrapped_create-AddsAt t o w j h = create-AddsAt o w j (wrap-eq-ok t (c.create o w).0 h)

  wrapped_update-AddsAt : (t : Text) (o : Object) (w : W) → AddsAt o.key (wrapping t (c.update o)) w
  wrapped_update-AddsAt t o w j h = update-AddsAt o w j (wrap-eq-ok t (c.update o w).0 h)

  patch-AddsAt : (o : Object) (w : W) → AddsAt o.key (c.apply_patch o) w
  patch-AddsAt o w j h = s.apply_ok o w j h

  create_or-AddsAt :
      (k : Key) (on_missing : Exec W (Unit {0})) (on_found : Object → Exec W (Unit {0}))
      (r : Result Object) (w : W)
      → AddsAt k on_missing w
      → ((found : Object) → r ≡ ok found → AddsAt k (on_found found) w)
      → AddsAt k (create_or on_missing on_found r) w
  unfolding create_or raise
  create_or-AddsAt k m f (ok found) w p q j h = q found refl j h
  create_or-AddsAt k m f (err e) w p q j h = ground (arith, p j)

  -- Read a key, then create or change the object.
  read_then-Adds :
      (k : Key) (read : Exec W Object) (on_missing : Exec W (Unit {0}))
      (on_found : Object → Exec W (Unit {0}))
      → ((w : W) → (read w).1 ≡ w)
      → ((w : W) → AddsAt k on_missing w)
      → ((found : Object) (w : W) → (read w).0 ≡ ok found → AddsAt k (on_found found) w)
      → Adds holds (k ∷ []) (attempt read >>= create_or on_missing on_found)
  read_then-Adds k read m f stays p q = AddsAt-named k _ λ w j.
      read-elim read stays (λ o. has holds o.1 j ≡ (key_eq k j || has holds w j)) (create_or m f) w
        (create_or-AddsAt k m f (read w).0 w (p w) (λ found. q found w) j)

  pub sync_config_map-Adds : (o : Object) → Adds holds (o.key ∷ []) (sync_config_map c o)
  unfolding sync_config_map
  sync_config_map-Adds o =
      read_then-Adds o.key (c.get o.key) _ _ (s.get_world o.key)
        (wrapped_create-AddsAt (codes "creating configmap") o)
        (λ found w g.
          wrapped_update-AddsAt (codes "updating configmap")
            (record o { resource_version = found.resource_version }) w)

  pub sync_csi_driver-Adds : (o : Object) → Adds holds (o.key ∷ []) (sync_csi_driver c o)
  unfolding sync_csi_driver
  sync_csi_driver-Adds o =
      read_then-Adds o.key (c.get (record o.key { namespace = [] })) _ _
        (s.get_world (record o.key { namespace = [] }))
        (wrapped_create-AddsAt (codes "creating csidriver object") o)
        (λ found w g.
          wrapped_update-AddsAt (codes "updating csidriver object")
            (record o { resource_version = found.resource_version }) w)

  create_and_get-AddsAt : (o : Object) (w : W) → AddsAt o.key (create_and_get c o) w
  unfolding create_and_get pure
  create_and_get-AddsAt o w j =
      >>=-elim (λ p. has holds p.1 j ≡ (key_eq o.key j || has holds w j)) (c.create o)
        (λ _. c.get o.key >>= λ found. pure tt) w
        (λ _ h.
          >>=-elim (λ p. has holds p.1 j ≡ (key_eq o.key j || has holds w j)) (c.get o.key)
            (λ _. pure tt) (c.create o w).1
            (λ _ g i. rw (s.get_world o.key (c.create o w).1) (create-AddsAt o w j h)))

  pub sync_cluster_role-Adds : (o : Object) → Adds holds (o.key ∷ []) (sync_cluster_role c o)
  unfolding sync_cluster_role
  sync_cluster_role-Adds o =
      read_then-Adds o.key (c.get o.key) _ _ (s.get_world o.key) (create_and_get-AddsAt o)
        (λ found w g. update-AddsAt o w)

  pub sync_cluster_role_bindings-Adds :
      (o : Object) → Adds holds (o.key ∷ []) (sync_cluster_role_bindings c o)
  unfolding sync_cluster_role_bindings
  sync_cluster_role_bindings-Adds o =
      read_then-Adds o.key (c.get o.key) _ _ (s.get_world o.key) (create-AddsAt o)
        (λ found w g. update-AddsAt o w)

  -- What is found is there.
  found-AddsAt :
      (k : Key) (found : Object) (w : W) → (c.get k w).0 ≡ ok found → AddsAt k (pure tt) w
  unfolding pure
  found-AddsAt k found w g j h = ground (arith, s.get_ok k w found g, (key_eq_iff k j).0)

  pub sync_service_account-Adds : (o : Object) → Adds holds (o.key ∷ []) (sync_service_account c o)
  unfolding sync_service_account
  sync_service_account-Adds o =
      read_then-Adds o.key (c.get o.key) _ _ (s.get_world o.key)
        (wrapped_create-AddsAt (codes "creating serviceaccount") o) (found-AddsAt o.key)

  pub sync_role-Adds : (o : Object) → Adds holds (named_keys o) (sync_role c o)
  unfolding sync_role
  sync_role-Adds o =
      elim (is_empty o.key.name)
        as (λ b.
          Adds holds (if b then [] else o.key ∷ [])
            (if b then pure tt else sync_cluster_role c o)) [
              | true ↦ pure-Adds holds
              | false ↦ sync_cluster_role-Adds o
            ]

  pub sync_role_bindings-Adds : (o : Object) → Adds holds (named_keys o) (sync_role_bindings c o)
  unfolding sync_role_bindings
  sync_role_bindings-Adds o =
      elim (is_empty o.key.name)
        as (λ b.
          Adds holds (if b then [] else o.key ∷ [])
            (if b then pure tt else sync_cluster_role_bindings c o)) [
              | true ↦ pure-Adds holds
              | false ↦ sync_cluster_role_bindings-Adds o
            ]

  apply_daemon_set-AddsAt :
      (csm_name : Text) (o : Object) (l : Option (Dict Text)) (w : W)
      → AddsAt o.key (apply_daemon_set c csm_name o l) w
  unfolding apply_daemon_set
  apply_daemon_set-AddsAt csm_name o none w = patch-AddsAt (labelled csm_name [] o) w
  apply_daemon_set-AddsAt csm_name o (some labels) w = patch-AddsAt (labelled csm_name labels o) w

  apply_deployment-AddsAt :
      (csm_name : Text) (o : Object) (l : Option (Dict Text)) (w : W)
      → AddsAt o.key (apply_deployment c csm_name o l) w
  unfolding apply_deployment raise
  apply_deployment-AddsAt csm_name o none w = λ j h. cc
  apply_deployment-AddsAt csm_name o (some labels) w = patch-AddsAt (labelled csm_name labels o) w

  pub sync_daemonset-Adds :
      (csm_name : Text) (o : Object) → Adds holds (o.key ∷ []) (sync_daemonset c csm_name o)
  unfolding sync_daemonset
  sync_daemonset-Adds csm_name o =
      read_then-Adds o.key (c.get_typed o.key) _ _ (s.get_typed_world o.key)
        (apply_daemon_set-AddsAt csm_name o o.template_labels)
        (λ found w g. apply_daemon_set-AddsAt csm_name o o.template_labels w)

  pub sync_deployment-Adds :
      (csm_name : Text) (o : Object) → Adds holds (o.key ∷ []) (sync_deployment c csm_name o)
  unfolding sync_deployment
  sync_deployment-Adds csm_name o = AddsAt-named o.key _ λ w j.
      read-elim (c.get_typed o.key) (s.get_typed_world o.key)
        (λ p. has holds p.1 j ≡ (key_eq o.key j || has holds w j))
        (λ _. apply_deployment c csm_name o o.template_labels) w
        (apply_deployment-AddsAt csm_name o o.template_labels w j)
