-- ===== src/Installation/Removal/Complete.antt =====
-- What `removeDriver` takes out of a cluster.
use csm_operator.Prelude.{
  ℕ, Bool, true, false, not, ◌&&◌, Option, some, List, [], ◌++◌, map, ◌≡◌, subst, sym, is_some,
  if◌then◌else◌, ok, wrap-eq-ok,
}
use csm_operator.Prelude.Text.{codes}
use csm_operator.Exec.{Exec, continue, ◌>>=◌, ◌>>◌, >>=-elim, pure, lift, wrapping}
use csm_operator.Csm.{Csm, observability, power_flex, power_max, power_store, replication}
use csm_operator.Csm.Modules.{is_module_enabled}
use csm_operator.Files.{OperatorConfig}
use csm_operator.Images.{no_version}
use csm_operator.Objects.{Key, Object, IsStore}
use csm_operator.Objects.Store.{named, has, Removes, >>-Removes, pure-Removes}
use csm_operator.Objects.Apply.{apply_delete_objects}
use csm_operator.Objects.Apply.Upsert.{apply_delete_objects-Removes}
use csm_operator.Installation.{Components, NodeYaml, ControllerYaml, DriverConfig, when}
use csm_operator.Installation.Driver.{get_driver_config}
use csm_operator.Installation.Driver.Removed.{
  config_keys, Answers, remove_driver_from_cluster-Removes,
}
use csm_operator.Installation.Modules.{patch_csm_dr_crds}
use csm_operator.Installation.Removal.{has_driver_type, remove_config, remove_driver}

-- A resource whose removal takes nothing out but the driver's own objects and the definitions for
-- disaster recovery: no replication, no observability, no reverse proxy beside the driver and no
-- metrics.
abbrev pub IsPlain : {W : Type 0} → Components W → Csm → Type 0
IsPlain parts cr =
    (is_some (is_module_enabled cr replication) ≡ false)
    × (is_some (is_module_enabled cr observability) ≡ false)
    × ((has_driver_type cr power_max && parts.is_reverse_proxy_sidecar) ≡ false)
    × (has_driver_type cr power_flex ≡ false)

-- The keys of the definitions for disaster recovery, which PowerStore alone has.
abbrev pub definition_keys : Csm → List Object → List Key
definition_keys cr os = if has_driver_type cr power_store then map (λ o. o.key) os else []

module _ {W : Type 0} (parts : Components W) (op : OperatorConfig) (holds : W → Key → Option ℕ)
    (s : IsStore parts.objects holds) where
  skipped-Removes :
      (ks : List Key) (b : Bool) (m n : Exec W (Unit {0}))
      → b ≡ false
      → Removes holds ks m
      → Removes holds ks (m >> when b n)
  unfolding pure
  skipped-Removes ks b m n e p w j =
      >>=-elim (λ o. has holds o.1 j ≡ (not (named ks j) && has holds w j)) m (λ _. when b n) w
        (λ _ h i. rw (e) (p w j h))

  patch-Removes :
      (os : List Object)
      → parts.csm_dr_crds ≡ ok os
      → Removes holds (map (λ o. o.key) os) (patch_csm_dr_crds parts op true)
  unfolding patch_csm_dr_crds lift ◌>>=◌
  patch-Removes os e =
      subst
        (λ r.
          Removes holds (map (λ o. o.key) os)
            (λ w. continue r (λ os. apply_delete_objects parts.objects true os) w))
        (sym e) (apply_delete_objects-Removes parts.objects holds s os)

  definitions-Removes :
      (cr : Csm) (os : List Object)
      → parts.csm_dr_crds ≡ ok os
      → Removes holds (definition_keys cr os) (
          when (has_driver_type cr power_store) (
            wrapping
              (codes "unable to remove the common CSM Disaster Recovery CRDs")
              (patch_csm_dr_crds parts op true)))
  definitions-Removes cr os e =
      elim (has_driver_type cr power_store)
        as (λ b. Removes holds (if b then map (λ o. o.key) os else []) (
          when b (
            wrapping (codes "unable to remove the common CSM Disaster Recovery CRDs")
              (patch_csm_dr_crds parts op true)))) [
                | true ↦ λ w j h. patch-Removes os e w j (
                    wrap-eq-ok (codes "unable to remove the common CSM Disaster Recovery CRDs") _ h)
                | false ↦ pure-Removes holds
              ]

  config-Removes :
      (cr : Csm) (config : DriverConfig) (os : List Object)
      → IsPlain parts cr
      → parts.csm_dr_crds ≡ ok os
      → ((n : NodeYaml) → config.node ≡ some n → Answers parts.objects n.daemon_set.key)
      → ((n : ControllerYaml) → config.controller ≡ some n → Answers parts.objects n.deployment.key)
      → Removes holds
          (config_keys config ++ definition_keys cr os)
          (remove_config parts op cr (some config))
  unfolding remove_config
  config-Removes cr config os (r, o, x, f) e p q = skipped-Removes _ _ _ _ f (
      >>-Removes holds (config_keys config) (definition_keys cr os) _ _
        (skipped-Removes _ _ _ _ x (
          skipped-Removes _ _ _ _ o (
            skipped-Removes _ _ _ _ r
              (remove_driver_from_cluster-Removes parts.objects holds s config p q))))
        (definitions-Removes cr os e))

  -- Where the resource runs no replication and no observability, no reverse proxy beside PowerMax,
  -- and is none of PowerFlex, where its driver's objects are built without a change of the world,
  -- and its daemon set and deployment can be looked for: a removal that succeeds takes the keys of
  -- these objects away, for PowerStore those of the definitions for disaster recovery too, and no
  -- others.
  pub remove_driver-Removes :
      (cr : Csm) (config : DriverConfig) (os : List Object) (w : W) (j : Key)
      → IsPlain parts cr
      → parts.csm_dr_crds ≡ ok os
      → ((n : NodeYaml) → config.node ≡ some n → Answers parts.objects n.daemon_set.key)
      → ((n : ControllerYaml) → config.controller ≡ some n → Answers parts.objects n.deployment.key)
      → get_driver_config parts cr no_version w ≡ (ok (some config), w)
      → (remove_driver parts op cr w).0 ≡ ok tt
      → has holds (remove_driver parts op cr w).1 j
        ≡ (not (named (config_keys config ++ definition_keys cr os) j) && has holds w j)
  unfolding remove_driver ◌>>=◌
  remove_driver-Removes cr config os w j plain e p q g h =
      subst
        (λ r.
          (continue r.0 (remove_config parts op cr) r.1).0 ≡ ok tt
          → has holds (continue r.0 (remove_config parts op cr) r.1).1 j
            ≡ (not (named (config_keys config ++ definition_keys cr os) j) && has holds w j))
        (sym g) (config-Removes cr config os plain e p q w j) h
