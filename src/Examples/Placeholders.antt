-- ===== src/Examples/Placeholders.antt =====
-- The placeholders of a PowerStore driver with authorization, at concrete inputs.
use csm_operator.Prelude.{true, none, some, [], ◌∷◌, ◌≡◌, refl, find}
use csm_operator.Prelude.Text.{Text, codes, text_eq, replace_all, replace_from}
use csm_operator.Csm.{Csm, no_csm, no_spec, no_driver, power_store}
use csm_operator.Samples.Secrets.{proxied}
use csm_operator.Drivers.Placeholders.{substitute, last_env}
use csm_operator.Drivers.Placeholders.Store.{
  modify_powerstore_cr, with_auth, set_auth, auth_enabled, power_store_node_changes,
  power_store_shared_changes, last_filled_env,
}
use csm_operator.Drivers.Placeholders.Store.Again.{modify_powerstore_cr_idem}

abbrev store : Csm
store = record no_csm {
  name = codes "store";
  namespace = codes "ns";
  spec = record no_spec {
    driver = record no_driver {
      csi_driver_type = power_store;
      has_node = true;
      node_envs = some (record { name = codes "X_CSM_AUTH_ENABLED"; value = codes "false" } ∷ []);
    };
    modules = proxied ∷ [];
  };
}

abbrev file : Text
file = codes "a: <X_CSM_AUTH_ENABLED>"

switched_on :
    (modify_powerstore_cr file store (codes "Node")).1.spec.driver.node_envs
    ≡ some (record { name = codes "X_CSM_AUTH_ENABLED"; value = codes "true" } ∷ [])
unfolding modify_powerstore_cr with_auth set_auth text_eq find
switched_on = refl

filled_in : (modify_powerstore_cr file store (codes "Node")).0 ≡ codes "a: true"
unfolding modify_powerstore_cr substitute text_eq find auth_enabled power_store_node_changes
    power_store_shared_changes last_filled_env last_env replace_all replace_from
filled_in = refl

-- A node without variables gets a list through the pointer.
abbrev bare : Csm
bare = record store {
  spec = record store.spec { driver = record store.spec.driver { node_envs = none } };
}

list_made :
    (modify_powerstore_cr file bare (codes "Node")).1.spec.driver.node_envs
    ≡ some (record { name = codes "X_CSM_AUTH_ENABLED"; value = codes "true" } ∷ [])
unfolding modify_powerstore_cr with_auth set_auth text_eq find
list_made = refl

modify_powerstore_cr_idem_example :
    modify_powerstore_cr file (modify_powerstore_cr file store (codes "Node")).1 (codes "Node")
    ≡ modify_powerstore_cr file store (codes "Node")
modify_powerstore_cr_idem_example = modify_powerstore_cr_idem file (codes "Node") store
