-- ===== src/Controller/Prechecks/Passing.antt =====
-- What prechecks that pass have checked, and what they have not.
use csm_operator.Prelude.{true, List, ◌≡◌, All}
use csm_operator.Prelude.Text.{Text}
use csm_operator.Exec.{Exec}
use csm_operator.Csm.{Csm, Module}
use csm_operator.Controller.Prechecks.{is_module_type}

-- What the module checks make sure of.
abbrev pub IsKnown : Module → Type 0
IsKnown m = m.enabled ≡ true → is_module_type m.name ≡ true

abbrev pub KnownModules : List Module → Type 0
KnownModules = All IsKnown

-- The checks behind a registry that passed: the modules are known, and the registry is as before.
record Checked (registry : Text) (cr : Csm) : Type 0 where
  known : KnownModules cr.spec.modules
  registry_kept : cr.spec.custom_registry ≡ registry
