-- ===== src/Csm/Modules.antt =====
-- The queries and edits of a custom resource's modules in pkg/operatorutils/utils.go.
use csm_operator.Prelude.{
  Bool, true, false, ◌&&◌, Option, none, some, List, [], ◌∷◌, ◌++◌, if◌then◌else◌, any, find,
  Result, ok, err, Err, ◌>>=◌,
}
use csm_operator.Prelude.Text.{Text, text_eq}
use csm_operator.Csm.{ContainerTemplate, Module, Csm, get_module}

-- *c.Enabled, which panics at nil
unfoldable pub deref : Option Bool → Result Bool
deref none = err Err.panic
deref (some b) = ok b

abbrev pub enabled_module : Text → Module → Bool
enabled_module t m = text_eq m.name t && m.enabled

-- The Go function returns a flag beside the module; `none` is the flag false.
unfoldable pub is_module_enabled : Csm → Text → Option Module
unfolding find
is_module_enabled cr t = find (enabled_module t) cr.spec.modules

-- `for _, c := range components { if c.Name == name && *c.Enabled { return true } }`
unfoldable pub component_enabled : List ContainerTemplate → Text → Result Bool
unfolding deref
component_enabled [] t = ok false
component_enabled (c ∷ cs) t =
    let rest = component_enabled cs t in
    if text_eq c.name t then (deref c.enabled >>= λ b. if b then ok true else rest) else rest

unfoldable pub component_enabled_in : Option Module → Text → Result Bool
unfolding component_enabled
component_enabled_in none t = ok false
component_enabled_in (some m) t = component_enabled m.components t

unfoldable pub is_module_component_enabled : Csm → Text → Text → Result Bool
unfolding is_module_enabled component_enabled_in
is_module_component_enabled cr mod_type t = component_enabled_in (is_module_enabled cr mod_type) t

abbrev pub is_component : Text → ContainerTemplate → Bool
is_component t c = text_eq c.name t

unfoldable pub has_module_component : Csm → Text → Text → Bool
unfolding get_module any
has_module_component cr mod_type t = any (is_component t) (get_module cr mod_type).components

abbrev pub add_component : ContainerTemplate → Module → Module
add_component c m = record m { components = m.components ++ c ∷ [] }

-- The loop goes on behind the first module of the type: each of them gets the component.
unfoldable pub add_to_modules : Text → ContainerTemplate → List Module → List Module
add_to_modules t c [] = []
add_to_modules t c (m ∷ ms) =
    (if text_eq m.name t then add_component c m else m) ∷ add_to_modules t c ms

unfoldable pub add_module_component : Csm → Text → ContainerTemplate → Csm
unfolding add_to_modules
add_module_component cr t c = record cr {
  spec = record cr.spec { modules = add_to_modules t c cr.spec.modules };
}
