-- ===== src/Drivers/Certificates/Mounted.antt =====
-- Certificates that are mounted, and secrets that were looked for.
use csm_operator.Prelude.{
  ℕ, zero, suc, ◌+◌, ◌≤◌, Bool, true, Option, none, some, List, [], ◌∷◌, ◌++◌, ◌≡◌, refl, arith,
  any, all, Result, ok, Err, ◌>>=◌, >>=-eq-ok, ℤ, pos, sym, ◌∙◌, ap, subst, ok_or, Bool-cases, inl,
  inr,
}
use csm_operator.Prelude.Text.{Text, codes, text_eq, text_eq_refl}
use csm_operator.Prelude.Decimal.{format_nat}
use csm_operator.Csm.{Csm, EnvVar, ContainerTemplate}
use csm_operator.Drivers.Certificates.{
  CertSettings, CertSource, cert_secrets, cert_names, cert_sources, volume_sources, or_refused,
  read_setting, read_settings, rounds, power_scale_secrets, unity_secrets, power_store_secrets,
  get_apply_cert_volume, get_apply_cert_volume_unity, get_apply_cert_volume_powerstore,
  cert_secret_count, common_envs, default_count,
}
use csm_operator.Drivers.Certificates.Numbers.{parse_bool, parse_int8}

-- The secrets of the sources are among the names.
abbrev pub are_among : List Text → List CertSource → Bool
are_among names = all (λ s. any (text_eq s.secret_name) names)

of_ok {ℓ} : {A : Type ℓ} {a b : A} → Result.ok a ≡ ok b → a ≡ b
of_ok {a = a} h = ap (ok_or a) h

-- The second settings ask for the certificates of the first, at least.
abbrev Covers : CertSettings → CertSettings → Type 0
Covers s t = (s.skip ≡ t.skip) × (rounds s.count ≤ rounds t.count)

abbrev with_skip : CertSettings → Bool → CertSettings
with_skip s b = record { skip = b; count = s.count }

abbrev with_count : CertSettings → ℤ → CertSettings
with_count s d = record { skip = s.skip; count = d }

-- What a round makes of the settings, if it is not refused.
setting_covered {ℓ} :
    {A : Type ℓ} (update : CertSettings → A → CertSettings)
    → ((s t : CertSettings) (a : A) → Covers s t → Covers (update s a) (update t a))
    → (e e' : Err) (o : Option A) (s t : CertSettings) {s' : CertSettings} → Covers s t
    → (or_refused e o >>= λ a. ok (update s a)) ≡ ok s'
    → (t' : CertSettings) × ((or_refused e' o >>= λ a. ok (update t a)) ≡ ok t') × Covers s' t'
setting_covered update kept e e' none s t c h = cc
setting_covered update kept e e' (some a) s t {s'} c h =
    (update t a, refl, subst (λ x. Covers x (update t a)) (of_ok h) (kept s t a c))

module _ (refuse refuse' : Text → Text → Err) (name : Text) where
  read_setting_covered :
      (s t : CertSettings) (env : EnvVar) {s' : CertSettings}
      → Covers s t
      → read_setting refuse name s env ≡ ok s'
      → (t' : CertSettings) × (read_setting refuse' name t env ≡ ok t') × Covers s' t'
  unfolding read_setting
  read_setting_covered s t env c h = elim (Bool-cases (text_eq env.name name)) [
    | inl e ↦ rw (e) (
        setting_covered with_skip (λ s t b k. (refl, k.1)) _ _ (parse_bool env.value) s t c
          (rw (e) at h))
    | inr e ↦ elim (Bool-cases (text_eq env.name cert_secret_count)) [
      | inl d ↦
          rw (e, d)
            (setting_covered with_count (λ s t b k. (k.0, omega arith)) _ _ (parse_int8 env.value) s
              t c (rw (e, d) at h))
      | inr d ↦ rw (e, d) (t, refl, subst (λ x. Covers x t) (of_ok (rw (e, d) at h)) c)
    ]
  ]

  read_settings_covered :
      (s t : CertSettings) (envs : List EnvVar) {s' : CertSettings}
      → Covers s t
      → read_settings refuse name s envs ≡ ok s'
      → (t' : CertSettings) × (read_settings refuse' name t envs ≡ ok t') × Covers s' t'
  unfolding read_settings
  read_settings_covered s t [] c h = (t, refl, subst (λ x. Covers x t) (of_ok h) c)
  read_settings_covered s t (env ∷ envs) c h =
      let (n, e, h') = >>=-eq-ok (read_setting refuse name s env) _ h in
      let (n', e', c') = read_setting_covered s t env c e in
      rw (e') (read_settings_covered n n' envs c' h')

are_among-cons :
    (n : Text) (names : List Text) (sources : List CertSource)
    → are_among names sources ≡ true
    → are_among (n ∷ names) sources ≡ true
unfolding all any
are_among-cons n names [] h = refl
are_among-cons n names (s ∷ sources) h = ground (arith, are_among-cons n names sources)

cert_sources-among :
    (name : Text) (i m n : ℕ)
    → m ≤ n
    → are_among (cert_names name i n) (cert_sources name i m) ≡ true
unfolding cert_sources cert_names all any
cert_sources-among name i zero n h = refl
cert_sources-among name i (suc m) zero h = ground arith
cert_sources-among name i (suc m) (suc n) h =
    rw (text_eq_refl (name ++ codes "-certs-" ++ format_nat i)) (
      are_among-cons _ (cert_names name (i + 1) n) (cert_sources name (i + 1) m)
        (cert_sources-among name (i + 1) m n (omega arith)))

-- The driver's own secret stands in front.
volume_sources-among :
    (name own : Text) (s t : CertSettings)
    → Covers s t
    → are_among (own ∷ cert_secrets name t) (volume_sources name s) ≡ true
unfolding all
volume_sources-among name own s t c =
    are_among-cons own (cert_secrets name t) (volume_sources name s) (among s t c)
  where
    among :
        (s t : CertSettings)
        → Covers s t
        → are_among (cert_secrets name t) (volume_sources name s) ≡ true
    among s t c = elim (Bool-cases s.skip) [
      | inl e ↦ rw e refl
      | inr e ↦
          rw (e, sym c.0 ∙ e) (cert_sources-among name 0 (rounds s.count) (rounds t.count) c.1)
    ]

default_count-bound : (envs : List EnvVar) → rounds (default_count envs) ≤ 1
default_count-bound [] = omega arith
default_count-bound (env ∷ []) = ground arith
default_count-bound (env ∷ env' ∷ envs) = omega arith

-- The settings that the precheck reads, and those that the volume does: each from its own defaults.
secrets_made :
    (refuse refuse' : Text → Text → Err) (skip_name name own : Text) (t : CertSettings)
    (defaults : List EnvVar → CertSettings) (common : Option ContainerTemplate)
    {sources : List CertSource}
    → ((envs : List EnvVar) → Covers (defaults envs) t)
    → (elim common [
      | none ↦ ok (volume_sources name (record { skip = true; count = pos 0 }))
      | some c ↦ read_settings refuse skip_name (defaults c.envs) c.envs >>= λ s.
          ok (volume_sources name s)
    ])
      ≡ ok sources
    → (names : List Text) × ((read_settings refuse' skip_name t (common_envs common) >>= λ s.
          ok (own ∷ cert_secrets name s))
        ≡ ok names)
      × (are_among names sources ≡ true)
unfolding read_settings all
secrets_made refuse refuse' skip_name name own t defaults none c h =
    (_, refl, subst (λ x. are_among (own ∷ cert_secrets name t) x ≡ true) (of_ok h) refl)
secrets_made refuse refuse' skip_name name own t defaults (some b) c h =
    let (s, e, h') = >>=-eq-ok (read_settings refuse skip_name (defaults b.envs) b.envs) _ h in
    let (t', e', c') = read_settings_covered refuse refuse' skip_name _ t b.envs (c b.envs) e in
    (
      own ∷ cert_secrets name t',
      rw (e') refl,
      subst (λ x. are_among (own ∷ cert_secrets name t') x ≡ true) (of_ok h')
          (volume_sources-among name own s t' c'),
    )

module _ (cr : Csm) {sources : List CertSource} where
  -- Where the volume of the PowerScale driver can be made, the precheck's list of secrets can, and has
  -- all that the volume has.
  pub get_apply_cert_volume-secrets :
      get_apply_cert_volume cr ≡ ok sources
      → (names : List Text) × (power_scale_secrets cr ≡ ok names) × (are_among names sources ≡ true)
  unfolding get_apply_cert_volume power_scale_secrets
  get_apply_cert_volume-secrets h =
      secrets_made _ _ _ cr.name _ _ _ cr.spec.driver.common (λ e. (refl, default_count-bound e)) h

  pub get_apply_cert_volume_unity-secrets :
      get_apply_cert_volume_unity cr ≡ ok sources
      → (names : List Text) × (unity_secrets cr ≡ ok names) × (are_among names sources ≡ true)
  unfolding get_apply_cert_volume_unity unity_secrets
  get_apply_cert_volume_unity-secrets h =
      secrets_made _ _ _ cr.name _ _ _ cr.spec.driver.common (λ e. (refl, omega arith)) h

  pub get_apply_cert_volume_powerstore-secrets :
      get_apply_cert_volume_powerstore cr ≡ ok sources
      → (names : List Text) × (power_store_secrets cr ≡ ok names) × (are_among names sources ≡ true)
  unfolding get_apply_cert_volume_powerstore power_store_secrets
  get_apply_cert_volume_powerstore-secrets h =
      secrets_made _ _ _ cr.name _ _ _ cr.spec.driver.common (λ e. (refl, default_count-bound e)) h
