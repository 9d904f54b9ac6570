-- ===== src/Drivers/Certificates.antt =====
-- The certificates of the PowerScale, Unity and PowerStore drivers: the settings in the resource's
-- environment variables, the secrets that the prechecks look for and the volume that is mounted.
pub mod Numbers
pub mod Mounted
use csm_operator.Prelude.{
  ℕ, zero, suc, ◌+◌, Bool, true, false, ◌&&◌, ◌||◌, Option, none, some, List, [], ◌∷◌, ◌++◌,
  if◌then◌else◌, Result, ok, err, Err, ◌>>=◌, ℤ, pos, negsuc,
}
use csm_operator.Prelude.Text.{Text, codes, text_eq, is_empty}
use csm_operator.Prelude.Decimal.{format_nat}
use csm_operator.Csm.{Csm, EnvVar, ContainerTemplate}
use csm_operator.Drivers.Certificates.Numbers.{parse_bool, parse_int8}

-- skipCertValid and certCount
pub record CertSettings : Type 0 where
  pub skip : Bool
  pub count : ℤ

abbrev pub cert_secret_count : Text
cert_secret_count = codes "CERT_SECRET_COUNT"

-- The text of a value that is refused: that of most places, and that of the PowerStore precheck.
abbrev pub is_invalid : Text → Text → Err
is_invalid value name = Err.message (value ++ codes " is an invalid value for " ++ name)

abbrev pub invalid_value : Text → Text → Err
invalid_value value name = Err.message (codes "invalid value for " ++ name ++ codes ": " ++ value)

abbrev pub or_refused {ℓ} : {A : Type ℓ} → Err → Option A → Result A
or_refused e none = err e
or_refused e (some a) = ok a

-- One round of the loop over the variables. The two names differ, so that one test at most holds.
unfoldable pub read_setting :
    (Text → Text → Err) → Text → CertSettings → EnvVar → Result CertSettings
read_setting refuse skip_name now env =
    if text_eq env.name skip_name
    then (do
      b ← or_refused (refuse env.value skip_name) (parse_bool env.value)
      ok (record { skip = b; count = now.count }))
    else if text_eq env.name cert_secret_count
    then (do
      d ← or_refused (refuse env.value cert_secret_count) (parse_int8 env.value)
      ok (record { skip = now.skip; count = d }))
    else ok now

unfoldable pub read_settings :
    (Text → Text → Err) → Text → CertSettings → List EnvVar → Result CertSettings
read_settings refuse skip_name now [] = ok now
read_settings refuse skip_name now (env ∷ envs) =
    read_setting refuse skip_name now env >>= λ next. read_settings refuse skip_name next envs

abbrev pub common_envs : Option ContainerTemplate → List EnvVar
common_envs none = []
common_envs (some c) = c.envs

-- The number of rounds of a loop from 0 up to the count.
abbrev pub rounds : ℤ → ℕ
rounds (pos n) = n
rounds (negsuc n) = 0

-- fmt.Sprintf("%s-certs-%d", cr.Name, i), for so many numbers from i on
unfoldable pub cert_names : Text → ℕ → ℕ → List Text
cert_names name i zero = []
cert_names name i (suc n) = (name ++ codes "-certs-" ++ format_nat i) ∷ cert_names name (i + 1) n

abbrev pub cert_secrets : Text → CertSettings → List Text
cert_secrets name s = if s.skip then [] else cert_names name 0 (rounds s.count)

-- The secrets that the precheck looks for, the driver's own first.
unfoldable pub power_scale_secrets : Csm → Result (List Text)
power_scale_secrets cr = do
  s ←
      read_settings is_invalid (codes "X_CSI_ISI_SKIP_CERTIFICATE_VALIDATION")
        (record { skip = false; count = pos 1 }) (common_envs cr.spec.driver.common)
  ok (
      (if is_empty cr.spec.driver.auth_secret
        then cr.name ++ codes "-creds"
        else cr.spec.driver.auth_secret)
      ∷ cert_secrets cr.name s)

unfoldable pub unity_secrets : Csm → Result (List Text)
unity_secrets cr = do
  s ←
      read_settings is_invalid (codes "X_CSI_UNITY_SKIP_CERTIFICATE_VALIDATION")
        (record { skip = true; count = pos 1 }) (common_envs cr.spec.driver.common)
  ok ((cr.name ++ codes "-creds") ∷ cert_secrets cr.name s)

unfoldable pub power_store_secrets : Csm → Result (List Text)
power_store_secrets cr = do
  s ←
      read_settings invalid_value (codes "X_CSI_POWERSTORE_SKIP_CERTIFICATE_VALIDATION")
        (record { skip = true; count = pos 1 }) (common_envs cr.spec.driver.common)
  ok (
      (if is_empty cr.spec.driver.auth_secret
        then cr.name ++ codes "-config"
        else cr.spec.driver.auth_secret)
      ∷ cert_secrets cr.name s)

-- One source of the projected volume `certs`: the secret, and the key that is also the path.
pub record CertSource : Type 0 where
  pub secret_name : Text
  pub item : Text

unfoldable pub cert_sources : Text → ℕ → ℕ → List CertSource
cert_sources name i zero = []
cert_sources name i (suc n) =
    record {
      secret_name = name ++ codes "-certs-" ++ format_nat i;
      item = codes "cert-" ++ format_nat i;
    }
    ∷ cert_sources name (i + 1) n

abbrev pub volume_sources : Text → CertSettings → List CertSource
volume_sources name s = if s.skip then [] else cert_sources name 0 (rounds s.count)

-- The default count of PowerScale and PowerStore: none where no variable is given, or one variable
-- that is not the count.
abbrev pub default_count : List EnvVar → ℤ
default_count [] = pos 0
default_count (env ∷ []) = if text_eq env.name cert_secret_count then pos 1 else pos 0
default_count _ = pos 1

-- The sources of `getApplyCertVolume`, `getApplyCertVolumeUnity` and `getApplyCertVolumePowerstore`.
unfoldable pub get_apply_cert_volume : Csm → Result (List CertSource)
get_apply_cert_volume cr = elim cr.spec.driver.common [
  | none ↦ ok (volume_sources cr.name (record { skip = true; count = pos 0 }))
  | some c ↦ do
    s ←
        read_settings is_invalid (codes "X_CSI_ISI_SKIP_CERTIFICATE_VALIDATION")
          (record { skip = false; count = default_count c.envs }) c.envs
    ok (volume_sources cr.name s)
]

unfoldable pub get_apply_cert_volume_unity : Csm → Result (List CertSource)
get_apply_cert_volume_unity cr = elim cr.spec.driver.common [
  | none ↦ ok (volume_sources cr.name (record { skip = true; count = pos 0 }))
  | some c ↦ do
    s ←
        read_settings is_invalid (codes "X_CSI_UNITY_SKIP_CERTIFICATE_VALIDATION")
          (record { skip = true; count = pos 1 }) c.envs
    ok (volume_sources cr.name s)
]

unfoldable pub get_apply_cert_volume_powerstore : Csm → Result (List CertSource)
get_apply_cert_volume_powerstore cr = elim cr.spec.driver.common [
  | none ↦ ok (volume_sources cr.name (record { skip = true; count = pos 0 }))
  | some c ↦ do
    s ←
        read_settings is_invalid (codes "X_CSI_POWERSTORE_SKIP_CERTIFICATE_VALIDATION")
          (record { skip = true; count = default_count c.envs }) c.envs
    ok (volume_sources cr.name s)
]
