-- ===== src/Drivers/Arrays.antt =====
-- The storage arrays of a PowerFlex secret: `GetMDMFromSecret` and `ValidateZonesInSecret` of
-- pkg/drivers/powerflex.go, behind the read of the secret. What package sigs.k8s.io/yaml makes of the
-- secret's text is an argument.
pub mod Mdm
pub mod Zones
use csm_operator.Prelude.{
  ℕ, ◌+◌, Bool, true, false, not, ◌&&◌, ◌||◌, List, [], ◌∷◌, ◌++◌, if◌then◌else◌, ltb, ◌==◌, any,
  length, Result, ok, err, Err, ◌>>=◌, wrap,
}
use csm_operator.Prelude.Text.{Text, codes, text_eq, is_empty}
use csm_operator.Drivers.Addresses.{validate_ip_address}

-- StorageArrayConfig of `GetMDMFromSecret`; its list of system names is only logged.
pub record StorageArray : Type 0 where
  pub username : Text
  pub password : Text
  pub system_id : Text
  pub endpoint : Text
  pub is_default : Bool
  pub mdm : Text

-- StorageArrayConfig of `ValidateZonesInSecret`, with its Zone
pub record ZonedArray : Type 0 where
  pub zoned_id : Text
  pub zone_name : Text
  pub label_key : Text

-- yaml.JSONToYAML and yaml.Unmarshal. The first list is what is filled in, also beside an error.
pub record Yaml : Type 0 where
  pub json_to_yaml : Text → Result Text
  pub storage_arrays : Text → List StorageArray
  pub zoned_arrays : Text → Result (List ZonedArray)

-- `if b { return errors.New(text) }`
abbrev pub reject_if : Bool → Text → Result (Unit {0})
reject_if b text = if b then err (Err.message text) else ok tt

-- The MDM value so far, and that of one more array; the first array puts no "&" in front.
unfoldable pub add_mdm : ℕ → Text → Text → Result Text
add_mdm i mdm own =
    let (address, valid) = validate_ip_address own in
    if is_empty own
    then ok mdm
    else if valid
    then ok (mdm ++ (if i == 0 then address else b'&' ∷ address))
    else err (Err.message (codes "Invalid MDM value"))

-- The first four checks of an array.
unfoldable pub check_fields : StorageArray → Result (Unit {0})
check_fields a = do
  _ ← reject_if (is_empty a.system_id) (codes "invalid value for SystemID")
  _ ← reject_if (is_empty a.username) (codes "invalid value for Username")
  _ ← reject_if (is_empty a.password) (codes "invalid value for Password")
  reject_if (is_empty a.endpoint) (codes "invalid value for RestGateway")

abbrev pub count_default : ℕ → StorageArray → ℕ
count_default defaults a = if a.is_default then defaults + 1 else defaults

-- One round of the loop: the place, the value, the identifiers that were seen and the number of
-- default arrays. It gives the new value.
unfoldable pub check_array : ℕ → Text → List Text → ℕ → StorageArray → Result Text
check_array i mdm seen defaults a = do
  _ ← check_fields a
  mdm' ← add_mdm i mdm a.mdm
  _ ← reject_if (any (text_eq a.system_id) seen) (codes "Duplicate SystemID")
  _ ← reject_if (ltb 1 (count_default defaults a)) (codes "'isDefaultArray' parameter located")
  ok mdm'

unfoldable pub collect_mdm : ℕ → Text → List Text → ℕ → List StorageArray → Result Text
collect_mdm i mdm seen defaults [] = ok mdm
collect_mdm i mdm seen defaults (a ∷ rest) = check_array i mdm seen defaults a >>= λ mdm'.
    collect_mdm (i + 1) mdm' (a.system_id ∷ seen) (count_default defaults a) rest

unfoldable pub mdm_of_config : Yaml → Text → Result Text
mdm_of_config yaml config =
    if is_empty config
    then err (Err.message (codes "Arrays details are not provided in vxflexos-config secret"))
    else (do
      text ← wrap (codes "unable to parse multi-array configuration") (yaml.json_to_yaml config)
      collect_mdm 0 [] [] 0 (yaml.storage_arrays text))

-- reflect.DeepEqual(configParam.Zone, Zone{})
abbrev pub has_no_zone : ZonedArray → Bool
has_no_zone a = is_empty a.zone_name && is_empty a.label_key

-- The checks of an array with a zone, with the label key of the arrays before it; the new label key.
unfoldable pub check_zone : Text → ZonedArray → Result Text
check_zone key a = do
  _ ← reject_if (is_empty a.label_key) (codes "zone LabelKey is empty or not specified")
  _ ←
      reject_if (not (is_empty key) && not (text_eq key a.label_key))
        (codes "labelKey is not consistent across all arrays in secret")
  _ ← reject_if (is_empty a.zone_name) (codes "zone name is empty or not specified")
  ok a.label_key

-- The loop, which counts the arrays with a zone.
unfoldable pub count_zones : Text → ℕ → List ZonedArray → Result ℕ
count_zones key n [] = ok n
count_zones key n (a ∷ rest) =
    let without = count_zones key n rest in
    let with_zone = λ (key' : Text). count_zones key' (n + 1) rest in
    reject_if (is_empty a.zoned_id) (codes "invalid value for SystemID") >>= λ _.
    if has_no_zone a then without else (check_zone key a >>= with_zone)

unfoldable pub validate_zones : List ZonedArray → Result (Unit {0})
validate_zones arrays = do
  n ← count_zones [] 0 arrays
  reject_if (ltb 0 n && not (length arrays == n)) (codes "not all arrays have zoning configured")

unfoldable pub zones_of_config : Yaml → Text → Result (Unit {0})
zones_of_config yaml config =
    if is_empty config
    then err (Err.message (codes "array details are not provided in secret"))
    else (do
      text ← wrap (codes "malformed json in array secret") (yaml.json_to_yaml config)
      arrays ← wrap (codes "unable to unmarshal array secret") (yaml.zoned_arrays text)
      validate_zones arrays)
