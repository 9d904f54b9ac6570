-- ===== src/Drivers/Sdc/Laws.antt =====
-- Containers with their MDM addresses.
use csm_operator.Prelude.{
  Bool, true, false, Option, none, some, List, [], ◌∷◌, map, ◌≡◌, refl, arith, if◌then◌else◌,
  Bool-cases, inl, inr, all,
}
use csm_operator.Prelude.Text.{Text, codes, text_eq, text_eq_refl}
use csm_operator.Csm.{Csm, EnvVar, ContainerTemplate}
use csm_operator.Drivers.Sdc.{
  mdm_name, set_mdm, update_container, update_containers, sdc_enabled, with_mdm,
}

-- The value of the first variable of the name.
abbrev pub mdm_of : List EnvVar → Option Text
mdm_of [] = none
mdm_of (env ∷ envs) = if text_eq env.name mdm_name then some env.value else mdm_of envs

mdm_of-set_mdm : (value : Text) (envs : List EnvVar) → mdm_of (set_mdm value envs) ≡ some value
unfolding set_mdm text_eq
mdm_of-set_mdm value [] = refl
mdm_of-set_mdm value (env ∷ envs) = ground (arith, mdm_of-set_mdm value envs)

abbrev pub sdc : Text
sdc = codes "sdc"

abbrev pub sdc_monitor : Text
sdc_monitor = codes "sdc-monitor"

abbrev pub is_mdm : Text → Option Text → Bool
is_mdm value none = false
is_mdm value (some v) = text_eq v value

-- The container has the value, if it has the name.
abbrev pub carries : Text → Text → ContainerTemplate → Bool
carries name value c = if text_eq c.name name then is_mdm value (mdm_of c.envs) else true

update_container-carries :
    (name value : Text) (c : ContainerTemplate)
    → carries name value (update_container name value c) ≡ true
unfolding update_container
update_container-carries name value c = elim (Bool-cases (text_eq c.name name)) [
  | inl e ↦ rw e (rw (e, mdm_of-set_mdm value c.envs) (text_eq_refl value))
  | inr e ↦ rw e (rw e refl)
]

map-carries :
    (name value : Text) (cs : List ContainerTemplate)
    → all (carries name value) (map (update_container name value) cs) ≡ true
unfolding all
map-carries name value [] = refl
map-carries name value (c ∷ cs) =
    rw (update_container-carries name value c) (map-carries name value cs)

update_containers-carries :
    (name value : Text) (cs : List ContainerTemplate)
    → all (carries name value) (update_containers name value cs) ≡ true
unfolding update_containers all set_mdm text_eq
update_containers-carries name value [] = rw (text_eq_refl name, text_eq_refl value) refl
update_containers-carries name value (c ∷ cs) = map-carries name value (c ∷ cs)

-- Of a resource whose node does not switch the SDC off: in each init container `sdc` and each sidecar
-- `sdc-monitor`, the first variable MDM is there and has the addresses.
pub with_mdm-carries :
    (mdm : Text) (cr : Csm)
    → sdc_enabled cr.spec.driver.node_envs ≡ true
    → (all (carries sdc mdm) (with_mdm mdm cr).spec.driver.init_containers ≡ true)
      × (all (carries sdc_monitor mdm) (with_mdm mdm cr).spec.driver.side_cars ≡ true)
unfolding with_mdm
with_mdm-carries mdm cr h = (
  rw h (update_containers-carries sdc mdm cr.spec.driver.init_containers),
  update_containers-carries sdc_monitor mdm cr.spec.driver.side_cars,
)
