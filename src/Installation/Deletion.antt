-- ===== src/Installation/Deletion.antt =====
-- The reconciler with the installation and the removal of this model in place of its arguments, and what
-- a deletion leaves in the cluster.
use csm_operator.Prelude.{
  ℕ, Bool, true, false, not, ◌&&◌, Option, some, List, [], ◌∷◌, ◌++◌, ◌≡◌, refl, any, arith, Result,
  ok, err, wrap-eq-ok, Bool-cases, inl, inr, is_some, ap, ◌∙◌,
}
use csm_operator.Prelude.Text.{codes}
use csm_operator.Exec.{wrapping, Exec, continue, ◌>>=◌, ◌>>◌, pure, lift, >>=-elim}
use csm_operator.Csm.{Csm, Module, has_finalizer}
use csm_operator.Files.{OperatorConfig}
use csm_operator.Images.{no_version}
use csm_operator.Objects.{Key, Object, IsStore}
use csm_operator.Objects.Store.{named, has}
use csm_operator.Installation.{Components, DriverConfig, NodeYaml, ControllerYaml}
use csm_operator.Installation.Driver.{get_driver_config}
use csm_operator.Installation.Driver.Removed.{Answers, config_keys}
use csm_operator.Installation.Removal.{remove_driver, remove_module}
use csm_operator.Installation.Removal.Complete.{IsPlain, definition_keys, remove_driver-Removes}
use csm_operator.Installation.Sync.{sync_csm}
use csm_operator.Controller.{Parts, Reconciler, csm_finalizer_name}
use csm_operator.Controller.Deletion.{
  remove_finalizer, force_remove, release_driver, remove_modules, clean_up, stop_after, delete_csm,
}
use csm_operator.Controller.Deletion.Order.{cleaned_up}

abbrev pub with_installation : {W : Type 0} → Components W → OperatorConfig → Parts W → Parts W
with_installation comps op parts = record parts {
  remove_driver = remove_driver comps op;
  remove_module = remove_module comps op;
  sync_csm = sync_csm comps op;
}

-- A module that is to be removed with the resource.
abbrev pub is_forced : Module → Bool
is_forced m = m.force_remove_module

remove_modules_none :
    {W : Type 0} (parts : Parts W) (cr : Csm) (ms : List Module) (w : W)
    → any is_forced ms ≡ false
    → (remove_modules parts cr ms w).1 ≡ w
unfolding remove_modules pure any
remove_modules_none parts cr [] w h = refl
remove_modules_none parts cr (m ∷ ms) w h = ground (arith, remove_modules_none parts cr ms w)

continue_world {ℓ} :
    {W : Type 0} {A : Type ℓ} (r : Result A) (w : W) → (continue r (λ a. pure (tt {0})) w).1 ≡ w
unfolding pure
continue_world (ok a) w = refl
continue_world (err e) w = refl

stopped_world :
    {W : Type 0} (cr : Csm) (r : Reconciler W) (o : Result (Unit {0}) × W)
    → (stop_after cr r o).1.world ≡ o.1
unfolding stop_after
stopped_world cr r (ok t, w) = refl
stopped_world cr r (err e, w) = refl

module _ {W : Type 0} (comps : Components W) (op : OperatorConfig) (parts : Parts W)
    (holds : W → Key → Option ℕ) (s : IsStore comps.objects holds)
    (kept : (x : Csm) (w : W) (j : Key)
      → holds (parts.outside.api.update_csm x w).1 j ≡ holds w j) where
  finalizer_kept :
      (cr : Csm) (w : W) (j : Key)
      → has holds (remove_finalizer parts.outside.api cr w).1 j ≡ has holds w j
  unfolding remove_finalizer ◌>>=◌ pure
  finalizer_kept cr w j = elim (Bool-cases (has_finalizer cr csm_finalizer_name)) [
    | inl e ↦ rw e (
        ap (λ x. has holds x j)
          (continue_world (parts.outside.api.update_csm (record cr { finalizers = [] }) w).0
            (parts.outside.api.update_csm (record cr { finalizers = [] }) w).1)
        ∙ ap is_some (kept (record cr { finalizers = [] }) w j))
    | inr e ↦ rw e refl
  ]

  -- What a deletion takes out of the cluster, up to the finalizer.
  released_and_removed :
      (cr : Csm) (config : DriverConfig) (os : List Object) (w : W) (j : Key)
      → IsPlain comps cr
      → any is_forced cr.spec.modules ≡ false
      → comps.csm_dr_crds ≡ ok os
      → ((n : NodeYaml) → config.node ≡ some n → Answers comps.objects n.daemon_set.key)
      → ((n : ControllerYaml) → config.controller ≡ some n → Answers comps.objects n.deployment.key)
      → get_driver_config comps cr no_version w ≡ (ok (some config), w)
      → ((release_driver (with_installation comps op parts) cr true
            >> remove_modules (with_installation comps op parts) cr cr.spec.modules)
          w).0
        ≡ ok tt
      → has holds
          ((release_driver (with_installation comps op parts) cr true
              >> remove_modules (with_installation comps op parts) cr cr.spec.modules)
            w).1
          j
        ≡ (not (named (config_keys config ++ definition_keys cr os) j) && has holds w j)
  unfolding release_driver
  released_and_removed cr config os w j plain unforced e p q g h =
      >>=-elim
        (λ o.
          has holds o.1 j
          ≡ (not (named (config_keys config ++ definition_keys cr os) j) && has holds w j))
        (release_driver (with_installation comps op parts) cr true)
        (λ u. remove_modules (with_installation comps op parts) cr cr.spec.modules) w
        (λ u r k.
          ap (λ x. has holds x j) (remove_modules_none _ cr cr.spec.modules _ unforced)
          ∙ remove_driver-Removes comps op holds s cr config os w j plain e p q g
              (wrap-eq-ok _ (remove_driver comps op cr w).0 r))
        h

  clean_up-Removes :
      (cr : Csm) (config : DriverConfig) (os : List Object) (w : W) (j : Key)
      → cr.spec.driver.force_remove_driver ≡ some true
      → IsPlain comps cr
      → any is_forced cr.spec.modules ≡ false
      → comps.csm_dr_crds ≡ ok os
      → ((n : NodeYaml) → config.node ≡ some n → Answers comps.objects n.daemon_set.key)
      → ((n : ControllerYaml) → config.controller ≡ some n → Answers comps.objects n.deployment.key)
      → get_driver_config comps cr no_version w ≡ (ok (some config), w)
      → (clean_up (with_installation comps op parts) cr w).0 ≡ ok tt
      → has holds (clean_up (with_installation comps op parts) cr w).1 j
        ≡ (not (named (config_keys config ++ definition_keys cr os) j) && has holds w j)
  unfolding clean_up lift force_remove
  clean_up-Removes cr config os w j forced plain unforced e p q g h =
      >>=-elim Left (lift (force_remove cr)) _ w (λ b r k. behind b (ground arith) k) h
    where
      all_parts : Parts W
      all_parts = with_installation comps op parts

      Left : Result (Unit {0}) × W → Type 0
      Left o =
          has holds o.1 j
          ≡ (not (named (config_keys config ++ definition_keys cr os) j) && has holds w j)

      removed : Bool → Exec W (Unit {0})
      removed b = release_driver all_parts cr b >> remove_modules all_parts cr cr.spec.modules

      finalized : Exec W (Unit {0})
      finalized =
          wrapping (codes "error when handling finalizer") (remove_finalizer parts.outside.api cr)

      behind :
          (b : Bool)
          → b ≡ true
          → ((removed b >> finalized) w).0 ≡ ok tt
          → Left ((removed b >> finalized) w)
      behind false t k = cc
      behind true t k =
          >>=-elim Left (removed true) (λ u. finalized) w
            (λ u r k'.
              finalizer_kept cr _ j
              ∙ released_and_removed cr config os w j plain unforced e p q g r)
            k

  -- Where the store of objects behaves as documented and the update of a resource changes no object of
  -- it; the resource runs no replication and no observability, no reverse proxy beside PowerMax, and
  -- is none of PowerFlex; its driver's objects are built without an error and without a change of the
  -- world, the definitions for disaster recovery can be read, and the daemon set and the deployment
  -- can be looked for; and the driver, but none of the modules, is to be removed with the resource:
  -- behind a deletion that succeeds, with the removal of this model, the cluster has none of the
  -- driver's objects, for PowerStore none of those definitions either, and all others that it had.
  pub delete_csm-Removes :
      (cr : Csm) (config : DriverConfig) (os : List Object) (r : Reconciler W) (j : Key)
      → cr.spec.driver.force_remove_driver ≡ some true
      → IsPlain comps cr
      → any is_forced cr.spec.modules ≡ false
      → comps.csm_dr_crds ≡ ok os
      → ((n : NodeYaml) → config.node ≡ some n → Answers comps.objects n.daemon_set.key)
      → ((n : ControllerYaml) → config.controller ≡ some n → Answers comps.objects n.deployment.key)
      → get_driver_config comps cr no_version r.world ≡ (ok (some config), r.world)
      → (delete_csm (with_installation comps op parts) cr r).0 ≡ ok tt
      → has holds (delete_csm (with_installation comps op parts) cr r).1.world j
        ≡ (not (named (config_keys config ++ definition_keys cr os) j) && has holds r.world j)
  unfolding delete_csm
  delete_csm-Removes cr config os r j forced plain unforced e p q g h =
      ap (λ x. has holds x j) (stopped_world cr r _)
      ∙ clean_up-Removes cr config os r.world j forced plain unforced e p q g (cleaned_up cr r _ h)
