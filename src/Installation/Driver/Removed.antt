-- ===== src/Installation/Driver/Removed.antt =====
-- What a cluster holds behind the removal of a driver.
use csm_operator.Prelude.{
  ℕ, true, false, not, ◌&&◌, Option, none, some, List, [], ◌∷◌, ◌++◌, ◌≡◌, refl, arith, any, ok,
  err, Err, Result,
}
use csm_operator.Exec.{Exec, ◌>>=◌, pure, attempt}
use csm_operator.Objects.{Key, key_eq, Object, ObjectClient, IsStore, is_not_found}
use csm_operator.Objects.Store.{
  named, has, Removes, pure-Removes, >>-Removes, read-elim, is_not_found-true, key_eq_iff,
}
use csm_operator.Objects.Apply.{delete_object}
use csm_operator.Objects.Apply.Upsert.{delete_object-Removes, missing-Removes}
use csm_operator.Installation.{RbacYaml, NodeYaml, ControllerYaml, DriverConfig}
use csm_operator.Installation.Driver.{
  in_order, delete_rbac, delete_readable, delete_workload, for_some, remove_driver_from_cluster,
}

-- The keys of none, or of what is there.
abbrev pub keys_of {ℓ} : {A : Type ℓ} → Option A → (A → List Key) → List Key
keys_of none f = []
keys_of (some a) f = f a

abbrev pub rbac_keys : RbacYaml → List Key
rbac_keys r =
    r.service_account.key ∷ r.cluster_role.key ∷ r.cluster_role_binding.key ∷ r.role.key
    ∷ r.role_binding.key ∷ []

-- The keys that a removal takes away, with those of the node's and the controller's pods given.
abbrev pub removed_keys : DriverConfig → List Key → List Key → List Key
removed_keys config daemon_sets deployments =
    keys_of config.node (λ n. rbac_keys n.rbac)
    ++ (keys_of config.controller (λ n. rbac_keys n.rbac)
        ++ (keys_of config.config_map (λ o. o.key ∷ [])
            ++ (keys_of config.driver (λ o. o.key ∷ []) ++ (daemon_sets ++ (deployments ++ [])))))

abbrev pub daemon_set_keys : DriverConfig → List Key
daemon_set_keys config = keys_of config.node (λ n. n.daemon_set.key ∷ [])

abbrev pub deployment_keys : DriverConfig → List Key
deployment_keys config = keys_of config.controller (λ n. n.deployment.key ∷ [])

abbrev pub config_keys : DriverConfig → List Key
config_keys config = removed_keys config (daemon_set_keys config) (deployment_keys config)

-- A read of this key finds the object, or fails because there is none.
abbrev pub Answers : {W : Type 0} → ObjectClient W → Key → Type 0
Answers {W} c k = (w : W) (e : Err) → (c.get k w).0 ≡ err e → is_not_found e ≡ true

-- A read of this key fails, and not because there is no object.
abbrev pub Unreadable : {W : Type 0} → ObjectClient W → Key → Type 0
Unreadable {W} c k = (w : W) → (e : Err) × ((c.get k w).0 ≡ err e) × (is_not_found e ≡ false)

module _ {W : Type 0} (c : ObjectClient W) (holds : W → Key → Option ℕ) (s : IsStore c holds) where
  ∷-Removes :
      (ks ls : List Key) (m : Exec W (Unit {0})) (ms : List (Exec W (Unit {0})))
      → Removes holds ks m
      → Removes holds ls (in_order ms)
      → Removes holds (ks ++ ls) (in_order (m ∷ ms))
  unfolding in_order
  ∷-Removes ks ls m ms p q = >>-Removes holds ks ls m (in_order ms) p q

  nothing-Removes : Removes holds [] (in_order [])
  unfolding in_order
  nothing-Removes = pure-Removes holds

  delete_rbac-Removes : (r : RbacYaml) → Removes holds (rbac_keys r) (delete_rbac c r)
  unfolding delete_rbac
  delete_rbac-Removes r =
      ∷-Removes _ _ _ _ (delete_object-Removes c holds s r.service_account.key) (
        ∷-Removes _ _ _ _ (delete_object-Removes c holds s r.cluster_role.key) (
          ∷-Removes _ _ _ _ (delete_object-Removes c holds s r.cluster_role_binding.key) (
            ∷-Removes _ _ _ _ (delete_object-Removes c holds s r.role.key) (
              ∷-Removes _ _ _ _ (delete_object-Removes c holds s r.role_binding.key)
                nothing-Removes))))

  for_some-Removes {ℓ} :
      {A : Type ℓ} (o : Option A) (ks : A → List Key) (f : A → Exec W (Unit {0}))
      → ((a : A) → o ≡ some a → Removes holds (ks a) (f a))
      → Removes holds (keys_of o ks) (for_some o f)
  unfolding for_some
  for_some-Removes none ks f p = pure-Removes holds
  for_some-Removes (some a) ks f p = p a refl

  delete_readable-Removes :
      (k : Key) (w : W) (j : Key) (r : Result Object)
      → Answers c k
      → (c.get k w).0 ≡ r
      → (delete_readable c k r w).0 ≡ ok tt
      → has holds (delete_readable c k r w).1 j ≡ (not (key_eq k j) && has holds w j)
  unfolding delete_readable pure attempt ◌>>=◌
  delete_readable-Removes k w j (ok o) a g h =
      missing-Removes c holds s k w j (c.delete k w).0 refl h
  delete_readable-Removes k w j (err e) a g h =
      ground (arith, a w e g, is_not_found-true e, s.get_missing k w, (key_eq_iff k j).0)

  delete_workload-Removes : (k : Key) → Answers c k → Removes holds (k ∷ []) (delete_workload c k)
  unfolding delete_workload any
  delete_workload-Removes k a w j =
      read-elim (c.get k) (s.get_world k)
        (λ o. has holds o.1 j ≡ (not (named (k ∷ []) j) && has holds w j)) (delete_readable c k) w
        (λ h. ground (arith, delete_readable-Removes k w j (c.get k w).0 a refl h))

  unread :
      (k : Key) (w : W) (j : Key) (r : Result Object) (e : Err)
      → r ≡ err e
      → is_not_found e ≡ false
      → has holds (delete_readable c k r w).1 j ≡ has holds w j
  unfolding delete_readable pure
  unread k w j (ok o) e h n = cc
  unread k w j (err x) e h n = refl

  Unreadable-Removes : (k : Key) → Unreadable c k → Removes holds [] (delete_workload c k)
  unfolding delete_workload any
  Unreadable-Removes k u w j =
      read-elim (c.get k) (s.get_world k) (λ o. has holds o.1 j ≡ has holds w j)
        (delete_readable c k) w (λ h. unread k w j (c.get k w).0 (u w).0 (u w).1 (u w).2)

  Unreadable-node :
      (o : Option NodeYaml)
      → ((n : NodeYaml) → o ≡ some n → Unreadable c n.daemon_set.key)
      → Removes holds [] (for_some o (λ n. delete_workload c n.daemon_set.key))
  unfolding for_some
  Unreadable-node none v = pure-Removes holds
  Unreadable-node (some n) v = Unreadable-Removes n.daemon_set.key (v n refl)

  remove_parts-Removes :
      (config : DriverConfig) (daemon_sets deployments : List Key)
      → Removes holds daemon_sets (for_some config.node (λ n. delete_workload c n.daemon_set.key))
      → Removes holds deployments
          (for_some config.controller (λ n. delete_workload c n.deployment.key))
      → Removes holds
          (removed_keys config daemon_sets deployments)
          (remove_driver_from_cluster c config)
  unfolding remove_driver_from_cluster
  remove_parts-Removes config ds dp p q =
      ∷-Removes _ _ _ _
        (for_some-Removes config.node (λ n. rbac_keys n.rbac) (λ n. delete_rbac c n.rbac)
          (λ n _. delete_rbac-Removes n.rbac))
        (∷-Removes _ _ _ _
          (for_some-Removes config.controller (λ n. rbac_keys n.rbac) (λ n. delete_rbac c n.rbac)
            (λ n _. delete_rbac-Removes n.rbac))
          (∷-Removes _ _ _ _
            (for_some-Removes config.config_map (λ o. o.key ∷ []) (λ o. delete_object c o.key)
              (λ o _. delete_object-Removes c holds s o.key))
            (∷-Removes _ _ _ _
              (for_some-Removes config.driver (λ o. o.key ∷ []) (λ o. delete_object c o.key)
                (λ o _. delete_object-Removes c holds s o.key))
              (∷-Removes ds _ _ _ p (∷-Removes dp _ _ _ q nothing-Removes)))))

  deployments-Removes :
      (config : DriverConfig)
      → ((n : ControllerYaml) → config.controller ≡ some n → Answers c n.deployment.key)
      → Removes holds
          (deployment_keys config)
          (for_some config.controller (λ n. delete_workload c n.deployment.key))
  deployments-Removes config q =
      for_some-Removes config.controller (λ n. n.deployment.key ∷ [])
        (λ n. delete_workload c n.deployment.key)
        (λ n e. delete_workload-Removes n.deployment.key (q n e))

  -- Where the daemon set and the deployment can be looked for, a removal that succeeds takes the keys
  -- of all the driver's objects away, and no others.
  pub remove_driver_from_cluster-Removes :
      (config : DriverConfig)
      → ((n : NodeYaml) → config.node ≡ some n → Answers c n.daemon_set.key)
      → ((n : ControllerYaml) → config.controller ≡ some n → Answers c n.deployment.key)
      → Removes holds (config_keys config) (remove_driver_from_cluster c config)
  remove_driver_from_cluster-Removes config p q =
      remove_parts-Removes config (daemon_set_keys config) (deployment_keys config)
        (for_some-Removes config.node (λ n. n.daemon_set.key ∷ [])
          (λ n. delete_workload c n.daemon_set.key)
          (λ n e. delete_workload-Removes n.daemon_set.key (p n e)))
        (deployments-Removes config q)

  -- Where the daemon set cannot be read, a removal that succeeds takes all the driver's keys away but
  -- the daemon set's own, and no others.
  pub remove_driver-Unreadable :
      (config : DriverConfig)
      → ((n : NodeYaml) → config.node ≡ some n → Unreadable c n.daemon_set.key)
      → ((n : ControllerYaml) → config.controller ≡ some n → Answers c n.deployment.key)
      → Removes holds
          (removed_keys config [] (deployment_keys config))
          (remove_driver_from_cluster c config)
  remove_driver-Unreadable config u q =
      remove_parts-Removes config [] (deployment_keys config) (Unreadable-node config.node u)
        (deployments-Removes config q)
