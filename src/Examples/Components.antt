-- ===== src/Examples/Components.antt =====
-- The default components of a resource at concrete inputs.
use csm_operator.Prelude.{[], ◌∷◌, ◌≡◌, refl, ok}
use csm_operator.Prelude.Text.{text_eq}
use csm_operator.Csm.{Csm, has_module}
use csm_operator.Csm.Modules.{is_module_enabled}
use csm_operator.Csm.Components.{
  get_default_components, add_missing, with_defaults, load_default_components,
}
use csm_operator.Csm.Components.Laws.{
  AllPresent, load_default_components-AllPresent, load_default_components_idem,
}
use csm_operator.Samples.{observed, with_modules, observability_module, topology, config}

abbrev loaded : Csm
loaded = with_modules (record observability_module { components = topology ∷ [] } ∷ []) observed

load_test : load_default_components observed config.default_components ≡ ok loaded
unfolding load_default_components has_module text_eq get_default_components with_defaults
    is_module_enabled add_missing
load_test = refl

load_default_components-AllPresent_example :
    (cr : Csm) × (load_default_components observed config.default_components ≡ ok cr)
    × AllPresent cr (topology ∷ [])
unfolding get_default_components is_module_enabled text_eq
load_default_components-AllPresent_example =
    load_default_components-AllPresent observed config.default_components (topology ∷ []) refl refl

load_default_components_idem_example :
    load_default_components loaded config.default_components ≡ ok loaded
load_default_components_idem_example =
    load_default_components_idem observed loaded config.default_components load_test
