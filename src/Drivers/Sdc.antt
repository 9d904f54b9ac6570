-- ===== src/Drivers/Sdc.antt =====
-- The MDM addresses in the containers of the PowerFlex driver: `SetSDCinitContainers` of
-- pkg/drivers/powerflex.go.
pub mod Laws
use csm_operator.Prelude.{
  Bool, true, false, not, ◌&&◌, Option, none, some, List, [], ◌∷◌, map, if◌then◌else◌, any, ok_or,
}
use csm_operator.Prelude.Text.{Text, codes, text_eq}
use csm_operator.Exec.{Exec, ◌>>=◌, attempt, pure}
use csm_operator.Csm.{Csm, EnvVar, ContainerTemplate, no_template}
use csm_operator.Drivers.Arrays.{Yaml}
use csm_operator.Drivers.Prechecks.{SecretReader, get_mdm_from_secret}

abbrev pub mdm_name : Text
mdm_name = codes "MDM"

-- The first variable of the name gets the value; a variable is added where there is none.
unfoldable pub set_mdm : Text → List EnvVar → List EnvVar
set_mdm value [] = record { name = mdm_name; value = value } ∷ []
set_mdm value (env ∷ envs) =
    let rest = set_mdm value envs in
    if text_eq env.name mdm_name
    then record { name = env.name; value = value } ∷ envs
    else env ∷ rest

-- The container with its MDM variable, if it has this name.
unfoldable pub update_container : Text → Text → ContainerTemplate → ContainerTemplate
update_container name value c =
    if text_eq c.name name then record c { envs = set_mdm value c.envs } else c

abbrev pub mdm_container : Text → Text → ContainerTemplate
mdm_container name value = record no_template { name = name; envs = set_mdm value [] }

-- A list without containers gets one.
abbrev pub or_container : Text → Text → List ContainerTemplate → List ContainerTemplate
or_container name value [] = mdm_container name value ∷ []
or_container name value (c ∷ cs) = c ∷ cs

unfoldable pub update_containers : Text → Text → List ContainerTemplate → List ContainerTemplate
update_containers name value cs = or_container name value (map (update_container name value) cs)

unfoldable pub sdc_enabled : Option (List EnvVar) → Bool
sdc_enabled none = true
sdc_enabled (some envs) =
    not (
      any (λ e. text_eq e.name (codes "X_CSI_SDC_ENABLED") && text_eq e.value (codes "false")) envs)

-- What the function makes of the resource, with the addresses.
unfoldable pub with_mdm : Text → Csm → Csm
with_mdm mdm cr = record cr {
  spec = record cr.spec {
    driver = record cr.spec.driver {
      init_containers =
          if sdc_enabled cr.spec.driver.node_envs
          then update_containers (codes "sdc") mdm cr.spec.driver.init_containers
          else cr.spec.driver.init_containers;
      side_cars = update_containers (codes "sdc-monitor") mdm cr.spec.driver.side_cars;
    };
  };
}

-- An error of the read counts as no addresses.
unfoldable pub set_sdc_init_containers : {W : Type 0} → SecretReader W → Yaml → Csm → Exec W Csm
set_sdc_init_containers get yaml cr =
    attempt (get_mdm_from_secret get yaml cr) >>= λ mdm. pure (with_mdm (ok_or [] mdm) cr)
