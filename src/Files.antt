-- ===== src/Files.antt =====
-- The operator's configuration files (operatorconfig/ of the repository), read and parsed: what
-- `os.ReadFile` and `yaml.Unmarshal` give is an argument of the model, errors included.
use csm_operator.Prelude.{Bool, List, Result}
use csm_operator.Prelude.Text.{Text}
use csm_operator.Prelude.Dict.{Dict}
use csm_operator.Csm.{Csm}

-- CSMComponentType: the file of a driver and that of a module lie in different folders.
pub data ComponentType : Type 0 where
  driver_type : Text → ComponentType
  module_type : Text → ComponentType

-- OperatorConfig, with its `ConfigDirectory` replaced by what lies in it.
pub record OperatorConfig : Type 0 where
  -- <driverconfig or moduleconfig>/<type>/<version>/upgrade-path.yaml
  pub upgrade_path : ComponentType → Text → Result Text
  -- whether `os.Stat` finds it: any error but `IsNotExist` counts as found
  pub has_upgrade_path : ComponentType → Text → Bool
  -- the names in the folder moduleconfig/<type>
  pub module_versions : Text → Result (List Text)
  -- common/csm-version-mapping.yaml
  pub version_mapping : Result (Dict (Dict Text))
  -- moduleconfig/common/version-values.yaml
  pub version_values : Result (Dict (Dict (Dict Text)))
  -- moduleconfig/observability/default-components.yaml
  pub default_components : Result Csm
