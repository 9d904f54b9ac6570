-- ===== src/Drivers/Prechecks/Flex.antt =====
-- What the precheck of a PowerFlex driver that passes has checked.
use csm_operator.Prelude.{
  Bool-cases, sym, true, false, ◌&&◌, [], ◌++◌, ◌≡◌, ◌⊎◌, refl, arith, Result, ok, err, Err, inl,
  inr, ap, subst, if◌then◌else◌, ltb, get_or, wrap-eq-ok, ok_or, ◌∙◌,
}
use csm_operator.Prelude.Text.{byte_length, is_empty, Text, codes}
use csm_operator.Prelude.Dict.{Dict, lookup}
use csm_operator.Exec.{Exec, ◌>>=◌, ◌>>◌, lift, pure, raise, attempt, wrapping, >>=-ok}
use csm_operator.Csm.{Csm, authorization, replication, power_flex}
use csm_operator.Files.{OperatorConfig, ComponentType}
use csm_operator.Upgrade.{get_version}
use csm_operator.Objects.{is_not_found}
use csm_operator.Drivers.Arrays.{Yaml, mdm_of_config}
use csm_operator.Drivers.Prechecks.{
  SecretReader, get_secret, get_mdm_from_secret, is_module_enabled_in, get_volume_name_prefix,
  check_prefix, check_supported, find_secrets, metrics_secrets, precheck_power_flex,
}

lifted_world {ℓ} :
    {W : Type 0} {A : Type ℓ} (r : Result (Unit {0})) (t : Result A) (w : W)
    → ((lift r >> lift t) w).1 ≡ w
unfolding ◌>>=◌ lift
lifted_world (err e) t w = refl
lifted_world (ok a) t w = refl

-- The secret of an answer that is passed on is what the call gave, or empty.
answered :
    {W : Type 0} (r : Result (Dict Text)) (w : W) {content : Dict Text}
    → ((elim r as (λ x. Exec W (Dict Text)) [
      | ok content ↦ pure content
      | err e ↦
          if is_not_found e
          then raise (Err.wrapped (codes "no secrets found or error") e)
          else pure []
    ])
        w).0
      ≡ ok content
    → (r ≡ ok content) ⊎ (content ≡ [])
unfolding pure raise
answered (ok c) w h = inl h
answered (err e) w {content} h = elim (Bool-cases (is_not_found e)) [
  | inl b ↦ cc (rw b at h)
  | inr b ↦
      let k : ◌≡◌ {A = Result (Dict Text)} (ok []) (ok content) = rw b at h in
      inr (sym (ap (ok_or []) k))
]

-- An empty secret gives no MDM value, so the secret that gives one was there.
there :
    (yaml : Yaml) (r : Result (Dict Text)) {content : Dict Text} {mdm : Text}
    → mdm_of_config yaml (get_or (lookup content (codes "config")) []) ≡ ok mdm
    → (r ≡ ok content) ⊎ (content ≡ [])
    → r ≡ ok content
unfolding mdm_of_config is_empty lookup
there yaml r h (inl e) = e
there yaml r {content} {mdm} h (inr e) =
    let k : mdm_of_config yaml [] ≡ ok mdm =
      subst (λ c. mdm_of_config yaml (get_or (lookup c (codes "config")) []) ≡ ok mdm) e h in
    cc

has_files :
    (op : OperatorConfig) (version : Text) {t : Unit {0}}
    → check_supported op power_flex (codes "vxflexos") version ≡ ok t
    → op.has_upgrade_path (ComponentType.driver_type power_flex) version ≡ true
has_files op version e = ground (arith, e)

short :
    (cr : Csm) {t : Unit {0}}
    → check_prefix cr ≡ ok t
    → (is_module_enabled_in cr.spec.modules authorization
        && is_module_enabled_in cr.spec.modules replication
        && ltb 5 (byte_length (get_volume_name_prefix cr.spec.driver.side_cars)))
      ≡ false
unfolding check_prefix
short cr e = ground (arith, e)

module _ {W : Type 0} (get : SecretReader W) (yaml : Yaml) where
  get_secret-cases :
      (namespace name : Text) (w : W) {content : Dict Text}
      → (get_secret get namespace name w).0 ≡ ok content
      → ((get namespace name w).0 ≡ ok content) ⊎ (content ≡ [])
  unfolding get_secret attempt ◌>>=◌
  get_secret-cases namespace name w h = answered (get namespace name w).0 (get namespace name w).1 h

  get_mdm_from_secret-ok :
      (cr : Csm) (w : W) {mdm : Text}
      → (get_mdm_from_secret get yaml cr w).0 ≡ ok mdm
      → (content : Dict Text) × ((get cr.namespace (cr.name ++ codes "-config") w).0 ≡ ok content)
        × (mdm_of_config yaml (get_or (lookup content (codes "config")) []) ≡ ok mdm)
  unfolding get_mdm_from_secret lift pure
  get_mdm_from_secret-ok cr w {mdm} h =
      let secret = get_secret get cr.namespace (cr.name ++ codes "-config") in
      let (config, e, k) =
        >>=-ok
          (wrapping (codes "reading secret") secret >>= λ content.
            pure (get_or (lookup content (codes "config")) []))
          _ w h in
      let (content, r, c) = >>=-ok (wrapping (codes "reading secret") secret) _ w e in
      let gives = ap (mdm_of_config yaml) (ap (ok_or []) c) ∙ k in
      let answer =
        get_secret-cases cr.namespace (cr.name ++ codes "-config") w
          (wrap-eq-ok (codes "reading secret") (secret w).0 r) in
      (content, there yaml _ gives answer, gives)

  -- A PowerFlex resource whose precheck passes, whatever the client answers, has a version with files,
  -- the secret of its arrays was read without an error and gives the MDM value, and the prefix of its
  -- volume names has no more than five bytes if both authorization and replication are on.
  pub precheck_power_flex-passed :
      (op : OperatorConfig) (cr : Csm) (w : W)
      → (precheck_power_flex get yaml op cr w).0 ≡ ok tt
      → (version : Text) × (mdm : Text) × (content : Dict Text) × (get_version cr op ≡ ok version)
        × (op.has_upgrade_path (ComponentType.driver_type power_flex) version ≡ true)
        × ((get cr.namespace (cr.name ++ codes "-config") w).0 ≡ ok content)
        × (mdm_of_config yaml (get_or (lookup content (codes "config")) []) ≡ ok mdm)
        × ((is_module_enabled_in cr.spec.modules authorization
              && is_module_enabled_in cr.spec.modules replication
              && ltb 5 (byte_length (get_volume_name_prefix cr.spec.driver.side_cars)))
            ≡ false)
  unfolding precheck_power_flex lift
  precheck_power_flex-passed op cr w h =
      let (version, e0, h0) = >>=-ok (lift (check_prefix cr) >> lift (get_version cr op)) _ w h in
      let (u, e1, e2) = >>=-ok (lift (check_prefix cr)) _ w e0 in
      let (u', e3, h1) = >>=-ok (supported version >> get_mdm_from_secret get yaml cr) _ w (
        subst (λ x. (after version x).0 ≡ ok tt)
          (lifted_world (check_prefix cr) (get_version cr op) w) h0) in
      let (u'', e4, e5) = >>=-ok (supported version) _ w e3 in
      let (content, e6, e7) = get_mdm_from_secret-ok cr w e5 in
      (version, u', content, e2, has_files op version e4, e6, e7, short cr e1)
    where
      supported : Text → Exec W (Unit {0})
      supported version = lift (check_supported op power_flex (codes "vxflexos") version)

      after : Text → Exec W (Unit {0})
      after version =
          supported version
          >> get_mdm_from_secret get yaml cr
          >> find_secrets get cr.namespace (metrics_secrets cr)
