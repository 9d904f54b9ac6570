-- ===== src/Modules/Prechecks/Tokens.antt =====
-- What the precheck of a driver's authorization has checked, and the components that it leaves.
use csm_operator.Prelude.{
  Bool, true, false, not, ◌&&◌, ◌||◌, List, [], ◌∷◌, ◌++◌, map, ◌≡◌, refl, arith, if◌then◌else◌,
  all, any, any-append, ok_or, is_ok, Result, ok, err, Err, ap, sym, subst, inl, inr, ◌⊎◌,
}
use csm_operator.Prelude.Text.{Text, codes, text_eq, text_eq_refl, is_empty}
use csm_operator.Prelude.Dict.{Dict}
use csm_operator.Exec.{Exec, ◌>>=◌, ◌>>◌, pure, raise, lift, attempt, >>=-ok}
use csm_operator.Csm.{Csm, EnvVar, ContainerTemplate, Module, authorization}
use csm_operator.Files.{OperatorConfig}
use csm_operator.Version.{min_version_check}
use csm_operator.Objects.{is_not_found}
use csm_operator.Drivers.Prechecks.{SecretReader, is_missing, get_secret}
use csm_operator.Drivers.Prechecks.Secrets.{IsReader, exists}
use csm_operator.Modules.Prechecks.{
  add_skip, skip_validation, read_proxy_envs, first_envs, auth_config_version,
  authorization_secrets, require_secrets, authorization_precheck, check_supported_driver,
  check_config_version, authorization_supported_drivers,
}

-- The variable does not leave the proxy's host empty.
abbrev pub names_host : EnvVar → Bool
names_host e = not (text_eq e.name (codes "PROXY_HOST") && is_empty e.value)

read_proxy_envs-names_host :
    (skip : Bool) (envs : List EnvVar) {b : Bool}
    → read_proxy_envs skip envs ≡ ok b
    → all names_host envs ≡ true
unfolding read_proxy_envs all
read_proxy_envs-names_host skip [] h = refl
read_proxy_envs-names_host skip (e ∷ envs) {b} h = ground (
  arith,
  read_proxy_envs-names_host true envs {b = b},
  read_proxy_envs-names_host false envs {b = b},
)

-- A proxy's component says whether certificates are validated.
abbrev pub says_skip : ContainerTemplate → Bool
says_skip c =
    not (text_eq c.name (codes "karavi-authorization-proxy"))
    || any (λ e. text_eq e.name skip_validation) c.envs

says_skip-add_skip : (c : ContainerTemplate) → says_skip (add_skip c) ≡ true
unfolding add_skip any
says_skip-add_skip c = ground (arith, said, text_eq_refl skip_validation)
  where
    said :
        any
          (λ e. text_eq e.name skip_validation)
          (c.envs ++ record { name = skip_validation; value = codes "true" } ∷ [])
        ≡ (any (λ e. text_eq e.name skip_validation) c.envs
            || (text_eq skip_validation skip_validation || false))
    said = any-append _ c.envs _

all-map-add_skip : (cs : List ContainerTemplate) → all says_skip (map add_skip cs) ≡ true
unfolding all
all-map-add_skip [] = refl
all-map-add_skip (c ∷ cs) = rw (says_skip-add_skip c) (all-map-add_skip cs)

-- What `GetSecret` makes of an answer.
abbrev answer : {W : Type 0} → Result (Dict Text) → Exec W (Dict Text)
answer r = elim r [
  | ok content ↦ pure content
  | err e ↦
      if is_not_found e then raise (Err.wrapped (codes "no secrets found or error") e) else pure []
]

required_found :
    {W : Type 0} (r : Result (Dict Text)) (e : Err) (rest : Exec W (Unit {0})) {w w' : W}
    → (is_ok r ≡ true) ⊎ (is_missing r ≡ true)
    → w' ≡ w
    → ((if is_ok (answer r w').0 then rest else raise e) (answer r w').1).0 ≡ ok tt
    → (is_ok r ≡ true) × ((rest w).0 ≡ ok tt)
unfolding raise pure
required_found (ok a) e rest found same h = (refl, subst (λ x. (rest x).0 ≡ ok tt) same h)
required_found (err d) e rest (inl found) same h = cc
required_found (err d) e rest {w} {w'} (inr found) same h = cc (rw (found) at h)

module _ {W : Type 0} (get : SecretReader W) (reads : IsReader get) (namespace : Text) (w : W) where
  require_secrets-exists :
      (names : List Text)
      → (require_secrets get namespace names w).0 ≡ ok tt
      → all (exists get namespace w) names ≡ true
  unfolding require_secrets get_secret ◌>>=◌ attempt pure raise all
  require_secrets-exists [] h = refl
  require_secrets-exists (n ∷ names) h =
      let (found, behind) =
        required_found (get namespace n w).0 _ (require_secrets get namespace names)
          (reads.get_answer namespace n w) (reads.get_world namespace n w) h in
      ground (arith, require_secrets-exists names behind)

-- Results that are lifted leave the world as it is.
lifted_world {ℓ} :
    {W : Type 0} {A : Type ℓ} (r s : Result (Unit {0})) (t : Result A) (w : W)
    → ((lift r >> lift s >> lift t) w).1 ≡ w
unfolding ◌>>=◌ lift
lifted_world (err e) s t w = refl
lifted_world (ok a) (err e) t w = refl
lifted_world (ok a) (ok b) t w = refl

-- Where reads of secrets change nothing and fail only on a secret that is not there: behind a precheck of
-- authorization that passes, each proxy component says whether certificates are validated, the first
-- component leaves no proxy host empty, and these secrets exist: the tokens, the authorization config
-- below version 2.4.0, and the root certificate where certificates are validated.
pub authorization_precheck-exists :
    {W : Type 0} (get : SecretReader W)
    → IsReader get
    → (op : OperatorConfig) (auth : Module) (cr : Csm) (w : W) {cs : List ContainerTemplate}
    → (authorization_precheck get op auth cr w).0 ≡ ok cs
    → (cs ≡ map add_skip auth.components)
      × (all says_skip cs ≡ true)
      × (envs : List EnvVar) × (skip : Bool) × (version : Text) × (in_driver_secret : Bool)
      × (first_envs (map add_skip auth.components) ≡ ok envs)
      × (all names_host envs ≡ true)
      × (read_proxy_envs false envs ≡ ok skip)
      × (auth_config_version op auth cr ≡ ok version)
      × (min_version_check (codes "v2.4.0") version ≡ ok in_driver_secret)
      × (all (exists get cr.namespace w) (authorization_secrets in_driver_secret skip) ≡ true)
unfolding authorization_precheck lift pure
authorization_precheck-exists {W} get reads op auth cr w {cs} h =
    let checks : Result (Unit {0}) = check_supported_driver authorization_supported_drivers cr in
    let versions : Result (Unit {0}) = check_config_version authorization auth op in
    let parts : Result (List EnvVar) = first_envs (map add_skip auth.components) in
    let first = lift checks >> lift versions >> lift parts in
    let (envs, e0, h0) = >>=-ok first _ w h in
    let (u, e1, e2) = >>=-ok (lift checks >> lift versions) _ w e0 in
    let (skip, e3, h3) =
      >>=-ok (lift (read_proxy_envs false envs)) _ w
        (subst (λ x. (after envs x).0 ≡ ok cs) (lifted_world checks versions parts w) h0) in
    let (version, e4, h4) = >>=-ok (lift (auth_config_version op auth cr)) _ w h3 in
    let (in_driver, e5, h5) = >>=-ok (lift (min_version_check (codes "v2.4.0") version)) _ w h4 in
    let (u', e6, h6) =
      >>=-ok (require_secrets get cr.namespace (authorization_secrets in_driver skip)) _ w h5 in
    (
      sym (ap (ok_or []) h6),
      subst (λ x. all says_skip x ≡ true) (ap (ok_or []) h6) (all-map-add_skip auth.components),
      envs,
      skip,
      version,
      in_driver,
      e2,
      read_proxy_envs-names_host false envs e3,
      e3,
      e4,
      e5,
      require_secrets-exists get reads cr.namespace w (authorization_secrets in_driver skip) e6,
    )
  where
    after : List EnvVar → Exec W (List ContainerTemplate)
    after = λ (envs : List EnvVar). lift (read_proxy_envs false envs) >>= λ skip.
        lift (auth_config_version op auth cr) >>= λ version.
        lift (min_version_check (codes "v2.4.0") version) >>= λ in_driver_secret.
        require_secrets get cr.namespace (authorization_secrets in_driver_secret skip)
        >> pure (map add_skip auth.components)
