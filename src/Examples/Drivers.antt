-- ===== src/Examples/Drivers.antt =====
-- The checks of the drivers, at concrete inputs.
use csm_operator.Prelude.{
  true, false, ◌&&◌, ◌||◌, none, some, List, [], ◌∷◌, ◌≡◌, refl, all, any, ok, inl, is_ok, map,
  negsuc, ◌-◌, if◌then◌else◌, leb, neg, ltb, get_or, ◌++◌,
}
use csm_operator.Prelude.Dict.{Dict, lookup}
use csm_operator.Prelude.Text.{
  byte_length, Text, codes, split, trim_space, is_empty, text_eq, trim_left_space,
}
use csm_operator.Csm.{authorization, replication, power_flex, get_module}
use csm_operator.Samples.{config, flex, parts}
use csm_operator.Samples.Secrets.{
  flex_reader, reader, reader-IsReader, first_array, second_array, zoned_array, unzoned_array, yaml,
  tools, scale,
}
use csm_operator.Upgrade.{get_version, own_version, check_upgrade, annotation}
use csm_operator.Drivers.Addresses.{
  is_ipv4, join_commas, validate_ip_address, validate_pieces, are_octets, is_octet,
}
use csm_operator.Drivers.Addresses.Laws.{accepted, accepted-validate_ip_address}
use csm_operator.Drivers.Arrays.{
  has_no_zone, mdm_of_config, validate_zones, collect_mdm, check_array, check_fields, add_mdm,
}
use csm_operator.Drivers.Arrays.Mdm.{is_complete, are_distinct, defaults_of, is_ok-mdm_of_config}
use csm_operator.Drivers.Arrays.Zones.{has_id, share_label, is_ok-validate_zones}
use csm_operator.Drivers.Certificates.{
  CertSource, get_apply_cert_volume, read_settings, read_setting, cert_sources, power_scale_secrets,
  cert_names,
}
use csm_operator.Drivers.Certificates.Numbers.{
  parse_int8, parse_uint, underscore_ok, underscores_from, scan_base, split_base, digit_value,
  parse_bool,
}
use csm_operator.Drivers.Prechecks.Flex.{precheck_power_flex-passed}
use csm_operator.Files.{ComponentType}
use csm_operator.Drivers.Prechecks.{
  precheck_power_flex, check_prefix, is_module_enabled_in, get_mdm_from_secret,
  get_volume_name_prefix, precheck_power_scale, find_secrets, driver_precheck, get_secret,
}
use csm_operator.Drivers.Prechecks.Secrets.{exists, precheck-exists}
use csm_operator.Drivers.Sdc.{with_mdm, sdc_enabled}
use csm_operator.Drivers.Sdc.Laws.{carries, sdc, sdc_monitor, with_mdm-carries}
use csm_operator.Drivers.Volumes.{
  PodTemplate, remove_volume, remove_init_volume, remove_mount, remove_first,
}
use csm_operator.Drivers.Volumes.Counts.{taken, times, times_mounted, remove_volume-times}
use csm_operator.Modules.Switch.{with_prechecks}
use csm_operator.Modules.Switch.Installed.{pre_checks-exists}
use csm_operator.Controller.Prechecks.{
  pre_checks, check_driver_type, is_driver_type, later_checks, check_modules, check_owner,
  owner_check, owner_found,
}
use csm_operator.Prelude.Decimal.{format_nat, emit_digits}
use csm_operator.Exec.{◌>>=◌, lift, attempt, pure, raise}
use csm_operator.Images.Registry.{validate_custom_registry}

-- Numbers with a base and with underscores.
parse_binary : parse_int8 (codes "-0b1000_0000") ≡ some (negsuc 127)
unfolding parse_int8 parse_uint any underscore_ok underscores_from scan_base split_base digit_value
    neg
parse_binary = refl

parse_underscore : parse_int8 (codes "_1") ≡ none
unfolding parse_int8 parse_uint any underscore_ok underscores_from
parse_underscore = refl

abbrev sources : List CertSource
sources =
    record { secret_name = codes "scale-certs-0"; item = codes "cert-0" }
    ∷ record { secret_name = codes "scale-certs-1"; item = codes "cert-1" }
    ∷ []

volume_made : get_apply_cert_volume scale ≡ ok sources
unfolding get_apply_cert_volume read_settings read_setting text_eq parse_bool any parse_int8
    parse_uint scan_base split_base digit_value cert_sources format_nat
volume_made = refl

passes : (precheck_power_scale reader config scale flex).0 ≡ ok tt
unfolding precheck_power_scale ◌>>=◌ lift get_version is_empty power_scale_secrets read_settings
    read_setting text_eq parse_bool any parse_int8 parse_uint scan_base split_base digit_value
    find_secrets cert_names attempt pure raise format_nat emit_digits own_version get_module
passes = refl

all_pass : (pre_checks (with_prechecks tools config parts) config scale flex).0 ≡ ok scale
unfolding pre_checks check_driver_type is_driver_type driver_precheck precheck_power_scale ◌>>=◌
    lift get_version is_empty power_scale_secrets read_settings read_setting text_eq parse_bool any
    parse_int8 parse_uint scan_base split_base digit_value find_secrets cert_names attempt pure
    raise format_nat emit_digits own_version get_module later_checks check_modules check_owner
    owner_check owner_found check_upgrade annotation validate_custom_registry trim_space
    trim_left_space
all_pass = refl

precheck-exists_example : all (λ s. exists reader scale.namespace flex s.secret_name) sources ≡ true
precheck-exists_example =
    precheck-exists reader reader-IsReader config scale flex sources (inl (volume_made, passes))

flex_passes : (precheck_power_flex flex_reader yaml config flex flex).0 ≡ ok tt
unfolding precheck_power_flex ◌>>=◌ lift get_version is_empty find_secrets get_secret attempt pure
    raise own_version check_prefix is_module_enabled_in any get_mdm_from_secret mdm_of_config
    collect_mdm check_array check_fields add_mdm validate_ip_address validate_pieces split is_ipv4
    are_octets trim_space is_octet text_eq join_commas get_module lookup
flex_passes = refl

precheck_power_flex-passed_example :
    (version : Text) × (mdm : Text) × (content : Dict Text) × (get_version flex config ≡ ok version)
    × (config.has_upgrade_path (ComponentType.driver_type power_flex) version ≡ true)
    × ((flex_reader flex.namespace (flex.name ++ codes "-config") flex).0 ≡ ok content)
    × (mdm_of_config yaml (get_or (lookup content (codes "config")) []) ≡ ok mdm)
    × ((is_module_enabled_in flex.spec.modules authorization
          && is_module_enabled_in flex.spec.modules replication
          && ltb 5 (byte_length (get_volume_name_prefix flex.spec.driver.side_cars)))
        ≡ false)
precheck_power_flex-passed_example =
    precheck_power_flex-passed flex_reader yaml config flex flex flex_passes

pre_checks-exists_example :
    all (λ s. exists reader scale.namespace flex s.secret_name) sources ≡ true
pre_checks-exists_example =
    pre_checks-exists tools reader-IsReader config parts scale flex sources refl volume_made
      all_pass

accepted-validate_ip_address_example :
    accepted (validate_ip_address (codes "10.0.0.1, 10.0.0.2")) ≡ (
      if all (λ p. is_ipv4 (trim_space p)) (split (codes "10.0.0.1, 10.0.0.2") b',')
      then some (join_commas (map trim_space (split (codes "10.0.0.1, 10.0.0.2") b',')))
      else none)
accepted-validate_ip_address_example = accepted-validate_ip_address (codes "10.0.0.1, 10.0.0.2")

mdm_example : mdm_of_config yaml (codes "arrays") ≡ ok (codes "10.0.0.1,10.0.0.2&10.0.0.3")
unfolding mdm_of_config is_empty collect_mdm check_array check_fields add_mdm validate_ip_address
    validate_pieces split is_ipv4 are_octets trim_space is_octet any text_eq join_commas
mdm_example = refl

is_ok-mdm_of_config_example : is_ok (mdm_of_config yaml (codes "arrays")) ≡ (
    all is_complete (first_array ∷ second_array ∷ [])
    && (are_distinct (first_array ∷ second_array ∷ [])
        && leb (defaults_of (first_array ∷ second_array ∷ [])) 1))
is_ok-mdm_of_config_example =
    is_ok-mdm_of_config yaml (codes "arrays") (codes "arrays") (λ e. cc) refl

is_ok-validate_zones_example : is_ok (validate_zones (zoned_array ∷ unzoned_array ∷ [])) ≡ (
    all has_id (zoned_array ∷ unzoned_array ∷ [])
    && (all has_no_zone (zoned_array ∷ unzoned_array ∷ [])
        || share_label (zoned_array ∷ unzoned_array ∷ [])))
is_ok-validate_zones_example = is_ok-validate_zones (zoned_array ∷ unzoned_array ∷ [])

with_mdm-carries_example :
    (all
        (carries sdc (codes "10.0.0.1"))
        (with_mdm (codes "10.0.0.1") flex).spec.driver.init_containers
      ≡ true)
    × (all
          (carries sdc_monitor (codes "10.0.0.1"))
          (with_mdm (codes "10.0.0.1") flex).spec.driver.side_cars
        ≡ true)
unfolding sdc_enabled
with_mdm-carries_example = with_mdm-carries (codes "10.0.0.1") flex refl

abbrev volume_name : Text
volume_name = codes "scaleio-path-opt"

-- Two containers mount the volume.
abbrev mounted_twice : PodTemplate
mounted_twice = record {
  volumes = some volume_name ∷ none ∷ [];
  mounts = (some volume_name ∷ []) ∷ (some volume_name ∷ []) ∷ [];
  init_mounts = [];
}

one_left : times_mounted volume_name (remove_volume volume_name mounted_twice).mounts ≡ 1
unfolding remove_volume remove_mount any text_eq remove_first
one_left = refl

remove_volume-times_example :
    (times volume_name (remove_volume volume_name mounted_twice).volumes
      ≡ times volume_name mounted_twice.volumes - taken volume_name volume_name)
    × (times volume_name (remove_init_volume volume_name mounted_twice).volumes
        ≡ times volume_name mounted_twice.volumes - taken volume_name volume_name)
    × (times_mounted volume_name (remove_volume volume_name mounted_twice).mounts
        ≡ times_mounted volume_name mounted_twice.mounts - taken volume_name volume_name)
    × ((remove_volume volume_name mounted_twice).init_mounts ≡ mounted_twice.init_mounts)
    × (times_mounted volume_name (remove_init_volume volume_name mounted_twice).init_mounts
        ≡ times_mounted volume_name mounted_twice.init_mounts - taken volume_name volume_name)
    × ((remove_init_volume volume_name mounted_twice).mounts ≡ mounted_twice.mounts)
remove_volume-times_example = remove_volume-times volume_name volume_name mounted_twice
