-- ===== src/Examples/Versions.antt =====
-- Versions and upgrades at concrete inputs.
use csm_operator.Prelude.{
  ltb, leb, ◌==◌, ◌&&◌, ◌||◌, ℕ, true, false, ◌≡◌, refl, arith, ok, is_ok, pos,
}
use csm_operator.Prelude.Text.{codes, split, trim_left, is_empty}
use csm_operator.Prelude.Decimal.{format_nat, emit_digits, scan_digits}
use csm_operator.Csm.{power_flex, has_module}
use csm_operator.Files.{driver_type}
use csm_operator.Version.{version_parser, min_version_check, atoi, magnitude}
use csm_operator.Version.Parser.{version, version_parser-version}
use csm_operator.Version.Order.{min_version_check-version}
use csm_operator.Upgrade.{
  is_valid_upgrade, get_version, own_version, check_upgrade, apply_config_version_annotations,
}
use csm_operator.Upgrade.Paths.{is_valid_upgrade-version}
use csm_operator.Upgrade.Recorded.{check_upgrade-apply}
use csm_operator.Samples.{flex, config}

version_parser_test : version_parser (codes "v2.15.0") ≡ ok (pos 2, pos 15)
unfolding version_parser split trim_left atoi magnitude scan_digits
version_parser_test = refl

version_parser_refused : is_ok (version_parser (codes "v2.15")) ≡ false
unfolding version_parser split trim_left
version_parser_refused = refl

-- Runs of the theorems

version_parser-version_example : version_parser (version 2 15 0) ≡ ok (pos 2, pos 15)
version_parser-version_example =
    version_parser-version 2 15 0 (omega arith) (omega arith) (omega arith)

min_version_check-version_example :
    min_version_check (version 2 13 9) (version 2 14 0) ≡ ok (ltb 2 2 || (2 == 2 && leb 13 14))
min_version_check-version_example =
    min_version_check-version 2 13 9 2 14 0 (omega arith, omega arith, omega arith)
      (omega arith, omega arith, omega arith)

abbrev AtLeast : (a b c a' b' c' : ℕ) → Type 0
AtLeast a b c a' b' c' = min_version_check (version a b c) (version a' b' c') ≡ ok true

is_valid_upgrade-version_example :
    is_ok (is_valid_upgrade (version 2 14 0) (version 2 15 0) (driver_type power_flex) config)
    ≡ (ltb 2 2 || (2 == 2 && leb 13 14))
unfolding format_nat emit_digits
is_valid_upgrade-version_example =
    is_valid_upgrade-version 2 14 0 2 15 0 2 13 0 (driver_type power_flex) config
      (omega arith, omega arith, omega arith) (omega arith, omega arith, omega arith)
      (omega arith, omega arith, omega arith) refl refl

flex_version : get_version flex config ≡ ok (codes "v2.15.0")
unfolding get_version own_version is_empty
flex_version = refl

check_upgrade-apply_example :
    check_upgrade (apply_config_version_annotations flex config).0 config ≡ ok true
unfolding has_module
check_upgrade-apply_example =
    check_upgrade-apply flex config (codes "v2.15.0") flex_version (λ e. cc) refl
