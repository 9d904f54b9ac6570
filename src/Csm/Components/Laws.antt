-- ===== src/Csm/Components/Laws.antt =====
-- What loading the default components does to a resource.
use csm_operator.Prelude.{
  Bool, true, false, ◌||◌, Option, none, some, List, [], ◌∷◌, ◌≡◌, refl, ◌∙◌, arith, if◌then◌else◌,
  any, find, any-append, is_some, is_some-find, get_or, Bool-cases, >>=-eq-ok, wrap-eq-ok, inl, inr,
  Result, ok, All,
}
use csm_operator.Prelude.Text.{Text, text_eq, text_eq_refl}
use csm_operator.Csm.{
  ContainerTemplate, Module, Csm, no_module, observability, is_module, has_module,
}
use csm_operator.Csm.Modules.{
  enabled_module, is_module_enabled, is_component, has_module_component, add_component,
  add_to_modules, add_module_component,
}
use csm_operator.Csm.Components.{
  add_missing, with_defaults, get_default_components, load_default_components,
}

abbrev map_option : ContainerTemplate → Option Module → Option Module
map_option c none = none
map_option c (some m) = some (add_component c m)

find-add_to_modules :
    (t : Text) (c : ContainerTemplate) (ms : List Module)
    → find (is_module t) (add_to_modules t c ms) ≡ map_option c (find (is_module t) ms)
unfolding find add_to_modules
find-add_to_modules t c [] = refl
find-add_to_modules t c (m ∷ ms) = ground (arith, find-add_to_modules t c ms)

any-add_to_modules :
    (t : Text) (c : ContainerTemplate) (ms : List Module)
    → any (enabled_module t) (add_to_modules t c ms) ≡ any (enabled_module t) ms
unfolding any add_to_modules
any-add_to_modules t c [] = refl
any-add_to_modules t c (m ∷ ms) = ground (arith, any-add_to_modules t c ms)

any_module-add_to_modules :
    (t : Text) (c : ContainerTemplate) (ms : List Module)
    → any (is_module t) (add_to_modules t c ms) ≡ any (is_module t) ms
unfolding any add_to_modules
any_module-add_to_modules t c [] = refl
any_module-add_to_modules t c (m ∷ ms) = ground (arith, any_module-add_to_modules t c ms)

-- `present` of what a search found is `has_module_component`.
abbrev present : Option Module → Text → Bool
present o n = any (is_component n) (get_or o no_module).components

present-map_option :
    (o : Option Module) (c : ContainerTemplate) (n : Text)
    → present (map_option c o) n ≡ (present o n || (if is_some o then text_eq c.name n else false))
unfolding any
present-map_option none c n = refl
present-map_option (some m) c n = ground (arith, any-append (is_component n) m.components (c ∷ []))

-- Adding a component makes it present wherever the module is, and hides no other.
has_module_component-add_module_component :
    (cr : Csm) (t n : Text) (c : ContainerTemplate)
    → has_module_component (add_module_component cr t c) t n
      ≡ (has_module_component cr t n || (if has_module cr t then text_eq c.name n else false))
unfolding has_module_component add_module_component has_module
has_module_component-add_module_component cr t n c =
    rw (find-add_to_modules t c cr.spec.modules, ← is_some-find (is_module t) cr.spec.modules)
      (present-map_option (find (is_module t) cr.spec.modules) c n)

has_module-add_module_component :
    (cr : Csm) (t : Text) (c : ContainerTemplate)
    → has_module (add_module_component cr t c) t ≡ has_module cr t
unfolding has_module add_module_component
has_module-add_module_component cr t c = any_module-add_to_modules t c cr.spec.modules

enabled-add_module_component :
    (cr : Csm) (t : Text) (c : ContainerTemplate)
    → is_some (is_module_enabled (add_module_component cr t c) t) ≡ is_some (is_module_enabled cr t)
unfolding is_module_enabled add_module_component
enabled-add_module_component cr t c = simp (is_some-find, any-add_to_modules t c cr.spec.modules)

-- One round of the loop.
abbrev step : Csm → ContainerTemplate → Csm
step cr c =
    if has_module_component cr observability c.name
    then cr
    else add_module_component cr observability c

has_module-step :
    (cr : Csm) (c : ContainerTemplate)
    → has_module (step cr c) observability ≡ has_module cr observability
has_module-step cr c = ground (arith, has_module-add_module_component cr observability c)

enabled-step :
    (cr : Csm) (c : ContainerTemplate)
    → is_some (is_module_enabled (step cr c) observability)
      ≡ is_some (is_module_enabled cr observability)
enabled-step cr c = ground (arith, enabled-add_module_component cr observability c)

driver-step : (cr : Csm) (c : ContainerTemplate) → (step cr c).spec.driver ≡ cr.spec.driver
unfolding add_module_component
driver-step cr c = ground arith

-- A round keeps what is present, and its own component is present behind it.
step_keeps :
    (cr : Csm) (c : ContainerTemplate) (n : Text)
    → has_module_component cr observability n ≡ true
    → has_module_component (step cr c) observability n ≡ true
step_keeps cr c n h = ground (arith, has_module_component-add_module_component cr observability n c)

step_adds :
    (cr : Csm) (c : ContainerTemplate)
    → has_module cr observability ≡ true
    → has_module_component (step cr c) observability c.name ≡ true
step_adds cr c h = ground (
  arith,
  has_module_component-add_module_component cr observability c.name c,
  text_eq_refl c.name,
)

-- The rounds that follow keep what is present.
add_missing_keeps :
    (cr : Csm) (cs : List ContainerTemplate) (n : Text)
    → has_module_component cr observability n ≡ true
    → has_module_component (add_missing cr cs) observability n ≡ true
unfolding add_missing
add_missing_keeps cr [] n h = h
add_missing_keeps cr (c ∷ cs) n h = add_missing_keeps (step cr c) cs n (step_keeps cr c n h)

abbrev pub AllPresent : Csm → List ContainerTemplate → Type 0
AllPresent cr = All (λ c. has_module_component cr observability c.name ≡ true)

add_missing-AllPresent :
    (cr : Csm) (cs : List ContainerTemplate)
    → has_module cr observability ≡ true
    → AllPresent (add_missing cr cs) cs
unfolding add_missing
add_missing-AllPresent cr [] h = tt
add_missing-AllPresent cr (c ∷ cs) h = (
  add_missing_keeps (step cr c) cs c.name (step_adds cr c h),
  add_missing-AllPresent (step cr c) cs (rw (has_module-step cr c) h),
)

-- Where all are present the loop changes nothing.
add_missing_id :
    (cr : Csm) (cs : List ContainerTemplate) → AllPresent cr cs → add_missing cr cs ≡ cr
unfolding add_missing
add_missing_id cr [] h = refl
add_missing_id cr (c ∷ cs) (p, h) = rw p (add_missing_id cr cs h)

record Frame (a b : Csm) : Type 0 where
  module_kept : has_module b observability ≡ has_module a observability
  enabled_kept :
      is_some (is_module_enabled b observability) ≡ is_some (is_module_enabled a observability)
  driver_kept : b.spec.driver ≡ a.spec.driver

add_missing-Frame : (cr : Csm) (cs : List ContainerTemplate) → Frame cr (add_missing cr cs)
unfolding add_missing
add_missing-Frame cr [] = record { module_kept = refl; enabled_kept = refl; driver_kept = refl }
add_missing-Frame cr (c ∷ cs) =
    let f = add_missing-Frame (step cr c) cs in
    record {
      module_kept = f.module_kept ∙ has_module-step cr c;
      enabled_kept = f.enabled_kept ∙ enabled-step cr c;
      driver_kept = f.driver_kept ∙ driver-step cr c;
    }

enabled_has_module :
    (t : Text) (ms : List Module) → any (enabled_module t) ms ≡ true → any (is_module t) ms ≡ true
unfolding any
enabled_has_module t [] h = h
enabled_has_module t (m ∷ ms) h = ground (arith, enabled_has_module t ms)

has_module_of_enabled :
    (cr : Csm) (t : Text) → is_some (is_module_enabled cr t) ≡ true → has_module cr t ≡ true
unfolding has_module is_module_enabled
has_module_of_enabled cr t h = enabled_has_module t cr.spec.modules (rw is_some-find at h)

with_defaults-Frame : (cr : Csm) (cs : List ContainerTemplate) → Frame cr (with_defaults cr cs)
unfolding with_defaults
with_defaults-Frame cr cs = ground (arith, add_missing-Frame cr cs)

with_defaults_idem :
    (cr : Csm) (cs : List ContainerTemplate)
    → with_defaults (with_defaults cr cs) cs ≡ with_defaults cr cs
unfolding with_defaults
with_defaults_idem cr cs = elim (Bool-cases (is_some (is_module_enabled cr observability))) [
  | inr off ↦ rw (off, off)
  | inl on ↦
      rw (on, (add_missing-Frame cr cs).enabled_kept, on)
        (add_missing_id _ cs (add_missing-AllPresent cr cs (has_module_of_enabled cr _ on)))
]

-- Where the default components of the driver could be read and the observability module is enabled,
-- loading succeeds and each of them is present in the result.
pub load_default_components-AllPresent :
    (cr : Csm) (file : Result Csm) (comps : List ContainerTemplate)
    → get_default_components cr.spec.driver.csi_driver_type file ≡ ok comps
    → is_some (is_module_enabled cr observability) ≡ true
    → (cr' : Csm) × (load_default_components cr file ≡ ok cr') × AllPresent cr' comps
unfolding load_default_components with_defaults
load_default_components-AllPresent cr file comps g on =
    let m = has_module_of_enabled cr observability on in
    (add_missing cr comps, rw (m, g, on), add_missing-AllPresent cr comps m)

-- What a successful load has done.
load_cases :
    (cr cr' : Csm) (file : Result Csm)
    → load_default_components cr file ≡ ok cr'
    → has_module cr observability ≡ true
    → (cs : List ContainerTemplate) × (get_default_components cr.spec.driver.csi_driver_type file
        ≡ ok cs)
      × (with_defaults cr cs ≡ cr')
unfolding load_default_components
load_cases cr cr' file h m =
    let (cs, got, done) = >>=-eq-ok _ _ (rw m at h) in (cs, wrap-eq-ok _ _ got, cc)

-- Loading twice is loading once: loading the defaults into a resource that has got them changes
-- nothing.
pub load_default_components_idem :
    (cr cr' : Csm) (file : Result Csm)
    → load_default_components cr file ≡ ok cr'
    → load_default_components cr' file ≡ ok cr'
unfolding load_default_components
load_default_components_idem cr cr' file h = elim (Bool-cases (has_module cr observability)) [
  | inr off ↦ ground arith
  | inl on ↦
      let (cs, got, done) = load_cases cr cr' file h on in
      let f = with_defaults-Frame cr cs in
      simp (← done, f.module_kept, on, f.driver_kept, got, with_defaults_idem cr cs)
]
