-- ===== src/Drivers/Prechecks/Secrets.antt =====
-- Secrets that exist where a precheck passes.
use csm_operator.Prelude.{
  Bool, true, List, [], ◌∷◌, ◌≡◌, ◌⊎◌, refl, arith, any, all, is_ok, Result, ok, err, Err, inl, inr,
  if◌then◌else◌, Bool-cases, &&-left, &&-right, sym, subst,
}
use csm_operator.Prelude.Text.{Text, text_eq, text_eq_iff}
use csm_operator.Exec.{Exec, attempt, raise, lift, ◌>>=◌, ◌>>◌}
use csm_operator.Csm.{Csm}
use csm_operator.Files.{OperatorConfig}
use csm_operator.Drivers.Certificates.{
  CertSource, get_apply_cert_volume, get_apply_cert_volume_unity, get_apply_cert_volume_powerstore,
}
use csm_operator.Drivers.Certificates.Mounted.{
  are_among, get_apply_cert_volume-secrets, get_apply_cert_volume_unity-secrets,
  get_apply_cert_volume_powerstore-secrets,
}
use csm_operator.Drivers.Prechecks.{
  SecretReader, is_missing, find_secrets, precheck_power_scale, precheck_unity,
  precheck_power_store,
}

-- A read changes nothing, and fails only where the secret is not found.
pub record IsReader {W : Type 0} (get : SecretReader W) : Type 0 where
  pub get_world : (namespace name : Text) (w : W) → (get namespace name w).1 ≡ w
  pub get_answer :
      (namespace name : Text) (w : W)
      → (is_ok (get namespace name w).0 ≡ true) ⊎ (is_missing (get namespace name w).0 ≡ true)

-- A loop's round that goes on has found its secret, and runs the rest in the same world.
round_found {ℓ} :
    {W : Type 0} {A : Type ℓ} (r : Result A) (e : Err) (rest : Exec W (Unit {0})) {w w' : W}
    → (is_ok r ≡ true) ⊎ (is_missing r ≡ true)
    → w' ≡ w
    → ((if is_missing r then raise e else rest) w').0 ≡ ok tt
    → (is_ok r ≡ true) × ((rest w).0 ≡ ok tt)
unfolding raise
round_found (ok a) e rest found same h = (refl, subst (λ x. (rest x).0 ≡ ok tt) same h)
round_found (err d) e rest (inl found) same h = cc
round_found (err d) e rest {w} {w'} (inr found) same h = cc (rw (found) at h)

-- The secret is in the namespace, in this world.
abbrev pub exists : {W : Type 0} → SecretReader W → Text → W → Text → Bool
exists get namespace w name = is_ok (get namespace name w).0

module _ {W : Type 0} (get : SecretReader W) (reads : IsReader get) (namespace : Text) (w : W) where
  find_secrets-exists :
      (names : List Text)
      → (find_secrets get namespace names w).0 ≡ ok tt
      → all (exists get namespace w) names ≡ true
  unfolding find_secrets ◌>>=◌ attempt all
  find_secrets-exists [] h = refl
  find_secrets-exists (n ∷ names) h =
      let (found, behind) =
        round_found (get namespace n w).0 _ (find_secrets get namespace names)
          (reads.get_answer namespace n w) (reads.get_world namespace n w) h in
      ground (arith, find_secrets-exists names behind)

  all_exist :
      (names : List Text) (s : Text)
      → all (exists get namespace w) names ≡ true
      → any (text_eq s) names ≡ true
      → exists get namespace w s ≡ true
  unfolding all any
  all_exist [] s h k = cc
  all_exist (n ∷ names) s h k = elim (Bool-cases (text_eq s n)) [
    | inl e ↦
        subst (λ x. exists get namespace w x ≡ true) (sym ((text_eq_iff s n).0 e)) (&&-left _ _ h)
    | inr e ↦ all_exist names s (&&-right _ _ h) (rw (e) at k)
  ]

  sources_exist :
      (names : List Text) (sources : List CertSource)
      → all (exists get namespace w) names ≡ true
      → are_among names sources ≡ true
      → all (λ s. exists get namespace w s.secret_name) sources ≡ true
  unfolding all
  sources_exist names [] h k = refl
  sources_exist names (s ∷ sources) h k =
      ground (arith, all_exist names s.secret_name h, sources_exist names sources h)

  -- The last part of a precheck that passes, with its list of secrets.
  passed-exists :
      (v : Result Text) (check : Text → Result (Unit {0})) (secrets : Result (List Text))
      (sources : List CertSource)
      → (names : List Text) × (secrets ≡ ok names) × (are_among names sources ≡ true)
      → ((lift v >>= λ version. lift (check version) >> lift secrets >>= find_secrets get namespace)
          w).0
        ≡ ok tt
      → all (λ s. exists get namespace w s.secret_name) sources ≡ true
  unfolding ◌>>=◌ lift
  passed-exists (err e) check secrets sources made h = cc
  passed-exists (ok version) check secrets sources (names, made, among) h =
      sources_exist names sources
        (find_secrets-exists names (behind (check version) (rw (made) at h))) among
    where
      behind :
          (c : Result (Unit {0}))
          → ((lift c >> lift (ok names) >>= find_secrets get namespace) w).0 ≡ ok tt
          → (find_secrets get namespace names w).0 ≡ ok tt
      behind (err e) h = cc
      behind (ok u) h = h

-- Where reads of secrets change nothing and fail only on a secret that is not there: behind a precheck
-- of the PowerScale, Unity or PowerStore driver that passes, each secret of which the driver's volume
-- `certs` is made exists.
pub precheck-exists :
    {W : Type 0} (get : SecretReader W)
    → IsReader get
    → (op : OperatorConfig) (cr : Csm) (w : W) (sources : List CertSource)
    → ((get_apply_cert_volume cr ≡ ok sources) × ((precheck_power_scale get op cr w).0 ≡ ok tt))
      ⊎ (((get_apply_cert_volume_unity cr ≡ ok sources) × ((precheck_unity get op cr w).0 ≡ ok tt))
          ⊎ ((get_apply_cert_volume_powerstore cr ≡ ok sources)
              × ((precheck_power_store get op cr w).0 ≡ ok tt)))
    → all (λ s. exists get cr.namespace w s.secret_name) sources ≡ true
unfolding precheck_power_scale precheck_unity precheck_power_store
precheck-exists get reads op cr w sources (inl (made, passed)) =
    passed-exists get reads cr.namespace w _ _ _ sources (get_apply_cert_volume-secrets cr made)
      passed
precheck-exists get reads op cr w sources (inr (inl (made, passed))) =
    passed-exists get reads cr.namespace w _ _ _ sources
      (get_apply_cert_volume_unity-secrets cr made) passed
precheck-exists get reads op cr w sources (inr (inr (made, passed))) =
    passed-exists get reads cr.namespace w _ _ _ sources
      (get_apply_cert_volume_powerstore-secrets cr made) passed
