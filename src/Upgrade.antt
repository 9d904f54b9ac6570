-- ===== src/Upgrade.antt =====
-- Versions of an installation: `GetVersion`, `GetModuleDefaultVersion`, `getUpgradeInfo` and
-- `IsValidUpgrade` of pkg/operatorutils/utils.go, `checkUpgrade` and `applyConfigVersionAnnotations`
-- of controllers/csm_controller.go.
pub mod Paths
pub mod Recorded
use csm_operator.Prelude.{
  Bool, true, false, not, ◌&&◌, ◌||◌, Option, none, some, [], if◌then◌else◌, find, get_or, is_some,
  Result, ok, err, Err, ok_or, ◌>>=◌,
}
use csm_operator.Prelude.Text.{Text, codes, text_eq, is_empty, has_prefix}
use csm_operator.Prelude.Dict.{Dict, lookup, insert}
use csm_operator.Files.{ComponentType, driver_type, module_type, OperatorConfig}
use csm_operator.Version.{min_version_check}
use csm_operator.Csm.{
  Csm, no_module, authorization, authorization_server, is_module, get_module, has_module,
}
use csm_operator.Csm.Components.{folder_name}

-- configVersionKey and CSMVersionKey
abbrev pub config_version_key : Text
config_version_key = codes "storage.dell.com/CSMOperatorConfigVersion"

abbrev pub csm_version_key : Text
csm_version_key = codes "storage.dell.com/CSMVersion"

abbrev pub csm_version : Text
csm_version = codes "v1.17.1"

-- The name under which the version mapping knows the resource.
unfoldable pub mapping_name : Csm → Text
mapping_name cr =
    let name = folder_name cr.spec.driver.csi_driver_type in
    if is_empty name && has_module cr authorization_server then authorization_server else name

unfoldable pub mapped_version : Option (Dict Text) → Text → Result Text
mapped_version none version = err (Err.message (codes "Unsupported platform"))
mapped_version (some versions) version = elim (lookup versions version) [
  | none ↦ err (Err.message (codes "No custom resource configuration is available for CSM version"))
  | some config_version ↦ ok config_version
]

-- The version that the resource itself names.
unfoldable pub own_version : Csm → Text
own_version cr =
    if is_empty cr.spec.driver.config_version
    then (get_module cr authorization_server).config_version
    else cr.spec.driver.config_version

unfoldable pub get_version : Csm → OperatorConfig → Result Text
get_version cr op = if is_empty cr.spec.version then ok (own_version cr) else (do
  support ← op.version_mapping
  mapped_version (lookup support (mapping_name cr)) cr.spec.version)

unfoldable pub get_upgrade_info : OperatorConfig → ComponentType → Text → Result Text
get_upgrade_info op t version = op.upgrade_path t version

-- What the least version of the path says of the other version; the errors of the check count as
-- false.
unfoldable pub decide_upgrade : Text → Text → Result Bool
decide_upgrade min_path version =
    if ok_or false (min_version_check min_path version)
    then ok true
    else err (Err.message (codes "upgrade/downgrade not valid"))

-- An upgrade asks the new version's path for the old version, a downgrade the old version's path
-- for the new one.
unfoldable pub is_valid_upgrade : Text → Text → ComponentType → OperatorConfig → Result Bool
is_valid_upgrade old_version new_version t op =
    if text_eq old_version new_version
    then ok true
    else if ok_or false (min_version_check old_version new_version)
    then (do min_path ← get_upgrade_info op t new_version; decide_upgrade min_path old_version)
    else (do min_path ← get_upgrade_info op t old_version; decide_upgrade min_path new_version)

-- GetModuleDefaultVersion
unfoldable pub get_module_default_version : Text → Text → Text → OperatorConfig → Result Text
get_module_default_version driver_config_version driver mod_type op = do
  support ← op.version_values
  elim (lookup support (folder_name driver)) [
    | none ↦ err (Err.message (codes "driver does not exist in file"))
    | some versions ↦ elim (lookup versions driver_config_version) [
      | none ↦ err (Err.message (codes "version of driver does not exist in file"))
      | some modules ↦ elim (lookup modules mod_type) [
        | none ↦ err (Err.message (codes "module for driver does not exist in file"))
        | some module_version ↦ ok module_version
      ]
    ]
  ]

-- A switch between the major versions 1 and 2 of Authorization.
unfoldable pub switches_major : Text → Text → Bool
switches_major old_version new_version =
    (has_prefix old_version (codes "v1.") && has_prefix new_version (codes "v2."))
    || (has_prefix old_version (codes "v2.") && has_prefix new_version (codes "v1."))

-- newVersion of an authorization server
unfoldable pub server_version : Csm → OperatorConfig → Result Text
server_version cr op =
    if is_empty cr.spec.version
    then ok (get_module cr authorization_server).config_version
    else get_version cr op

unfoldable pub upgrade_server : Text → Text → OperatorConfig → Result Bool
upgrade_server old_version new_version op =
    if switches_major old_version new_version
    then ok false
    else is_valid_upgrade old_version new_version (module_type authorization) op

unfoldable pub check_server : Text → Csm → OperatorConfig → Result Bool
check_server old_version cr op = do
  new_version ← server_version cr op
  upgrade_server old_version new_version op

unfoldable pub check_driver : Text → Csm → OperatorConfig → Result Bool
check_driver old_version cr op = do
  new_version ← get_version cr op
  is_valid_upgrade old_version new_version
      (driver_type (folder_name cr.spec.driver.csi_driver_type)) op

-- The annotation, where there are annotations at all.
unfoldable pub annotation : Csm → Text → Option Text
annotation cr k = elim cr.annotations [ none ↦ none | some m ↦ lookup m k ]

unfoldable pub check_upgrade : Csm → OperatorConfig → Result Bool
check_upgrade cr op = elim (annotation cr config_version_key) [
  | none ↦ ok true
  | some old_version ↦
      if has_module cr authorization_server
      then check_server old_version cr op
      else check_driver old_version cr op
]

-- `annotations[CSMVersionKey] = CSMVersion` writes to the resource's own map where it has one, also
-- on the paths that return false; a new map is lost on those.
unfoldable pub stamp : Csm → Csm
stamp cr = elim cr.annotations [
  | none ↦ cr
  | some m ↦ record cr { annotations = some (insert m csm_version_key csm_version) }
]

-- The end of the function, on the annotations that it works with and the version that it got.
unfoldable pub annotate : Csm → Dict Text → Result Text → Csm × Bool
annotate cr m (err e) = (stamp cr, false)
annotate cr m (ok config_version) =
    if not (text_eq (get_or (lookup m config_version_key) []) config_version)
    then (record cr { annotations = some (insert m config_version_key config_version) }, true)
    else (stamp cr, false)

unfoldable pub apply_config_version_annotations : Csm → OperatorConfig → Csm × Bool
apply_config_version_annotations cr op =
    annotate cr (insert (get_or cr.annotations []) csm_version_key csm_version) (get_version cr op)
