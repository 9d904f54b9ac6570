-- ===== src/Images/Containers.antt =====
-- The environment variables and the arguments of a container.
use csm_operator.Prelude.{
  true, Option, none, some, List, [], ◌∷◌, ◌++◌, map, ◌≡◌, refl, ap, ◌∙◌, arith, if◌then◌else◌, any,
  any-append, All, Bool-cases, inl, inr,
}
use csm_operator.Prelude.Text.{Text, codes, text_eq, text_eq_iff, text_eq_refl, is_empty, contains}
use csm_operator.Prelude.Dict.{Dict, lookup, insert, lookup-insert}
use csm_operator.Csm.{EnvVar}
use csm_operator.Images.{
  EnvApply, add_updates, update_env, update_envs, replace_all_apply_custom_envs, argument_key,
  overwrite, replace_loop, replace_all_args,
}

update_envs-names :
    (temp : Dict Text) (olds : List EnvApply)
    → map (λ (e : EnvApply). e.name) (update_envs temp olds) ≡ map (λ (e : EnvApply). e.name) olds
unfolding update_envs update_env
update_envs-names temp [] = refl
update_envs-names temp (old ∷ olds) = ground (arith, update_envs-names temp olds)

-- A container keeps its variables, in their order: none is added and none is dropped.
pub replace_all_apply_custom_envs-names :
    (driver_env : List EnvApply) (common_env nr_env : List EnvVar)
    → map (λ (e : EnvApply). e.name) (replace_all_apply_custom_envs driver_env common_env nr_env)
      ≡ map (λ (e : EnvApply). e.name) driver_env
unfolding replace_all_apply_custom_envs
replace_all_apply_custom_envs-names driver_env common_env nr_env = update_envs-names _ driver_env

-- The value that the list gives a name last, and `d` where it does not name it.
abbrev pub last_value : Text → List EnvVar → Option Text → Option Text
last_value n [] d = d
last_value n (e ∷ es) d = last_value n es (if text_eq e.name n then some e.value else d)

-- How a value is kept while the variables are updated.
abbrev kept : Text → Text
kept v = if is_empty v then codes "NA" else v

abbrev kept_option : Option Text → Option Text
kept_option none = none
kept_option (some v) = some (kept v)

lookup-add_updates :
    (n : Text) (es : List EnvVar) (temp : Dict Text) (d : Option Text)
    → lookup temp n ≡ kept_option d
    → lookup (add_updates es temp) n ≡ kept_option (last_value n es d)
unfolding add_updates
lookup-add_updates n [] temp d h = h
lookup-add_updates n (e ∷ es) temp d h =
    lookup-add_updates n es (insert temp e.name (kept e.value))
      (if text_eq e.name n then some e.value else d)
      (elim (Bool-cases (text_eq e.name n)) [
        | inl p ↦ lookup-insert temp e.name n (kept e.value) ∙ rw p
        | inr p ↦ lookup-insert temp e.name n (kept e.value) ∙ rw p h
      ])

-- What the code does with a kept value.
update_env-kept :
    (temp : Dict Text) (old : EnvApply) (v : Text)
    → lookup temp old.name ≡ some (kept v)
    → (update_env temp old).value ≡ some (if text_eq v (codes "NA") then [] else v)
unfolding update_env text_eq is_empty
update_env-kept temp old [] h = rw h
update_env-kept temp old (c ∷ v) h = rw h

update_env-name : (temp : Dict Text) (old : EnvApply) → (update_env temp old).name ≡ old.name
unfolding update_env
update_env-name temp old = ground arith

update_envs-value :
    (temp : Dict Text) (n v : Text) (olds : List EnvApply)
    → lookup temp n ≡ some (kept v)
    → All
        (λ (e : EnvApply).
          text_eq e.name n ≡ true → e.value ≡ some (if text_eq v (codes "NA") then [] else v))
        (update_envs temp olds)
unfolding update_envs
update_envs-value temp n v [] h = tt
update_envs-value temp n v (old ∷ olds) h = (
  λ q.
      update_env-kept temp old v
        (ap (lookup temp) ((text_eq_iff old.name n).0 (rw (update_env-name temp old) at q)) ∙ h),
  update_envs-value temp n v olds h,
)

-- A variable that the common or the own part of the resource names gets the value that is given last,
-- the own part behind the common one; the value "NA" stands for an empty one.
pub replace_all_apply_custom_envs-value :
    (driver_env : List EnvApply) (common_env nr_env : List EnvVar) (n v : Text)
    → last_value n nr_env (last_value n common_env none) ≡ some v
    → All
        (λ (e : EnvApply).
          text_eq e.name n ≡ true → e.value ≡ some (if text_eq v (codes "NA") then [] else v))
        (replace_all_apply_custom_envs driver_env common_env nr_env)
unfolding replace_all_apply_custom_envs lookup
replace_all_apply_custom_envs-value driver_env common_env nr_env n v h =
    update_envs-value _ n v driver_env (
      lookup-add_updates n nr_env (add_updates common_env []) (last_value n common_env none)
        (lookup-add_updates n common_env [] none refl)
      ∙ ap kept_option h)

any-overwrite :
    (key argument : Text) (defaults : List Text)
    → any (λ a. contains a key) defaults ≡ true
    → any (text_eq argument) (overwrite key argument defaults) ≡ true
unfolding overwrite any
any-overwrite key argument [] h = h
any-overwrite key argument (a ∷ rest) h = elim (Bool-cases (contains a key)) [
  | inl e ↦ rw (e, text_eq_refl argument)
  | inr e ↦ rw e (ground (arith, any-overwrite key argument rest))
]

any-replace_loop :
    (arguments defaults merge : List Text) (argument : Text)
    → any (text_eq argument) (replace_loop defaults (arguments ++ argument ∷ []) merge) ≡ true
unfolding replace_loop any
any-replace_loop (a ∷ arguments) defaults merge argument =
    any-replace_loop arguments (overwrite (argument_key a) a defaults) _ argument
any-replace_loop [] defaults merge argument =
    let key = argument_key argument in
    let is = text_eq argument in
    let ds = overwrite key argument defaults in
    elim (Bool-cases (any (λ a. contains a key) defaults)) [
      | inl e ↦ rw e (rw (any-append is ds merge, any-overwrite key argument defaults e))
      | inr e ↦ rw e (
          rw (any-append is ds (merge ++ argument ∷ []), any-append is merge (argument ∷ []))
            (ground (arith, text_eq_refl argument)))
    ]

-- The last argument of the resource is among the arguments of the container, whatever the container
-- had: it replaces what matches it, or it is appended.
pub any-replace_all_args :
    (defaults arguments : List Text) (argument : Text)
    → any (text_eq argument) (replace_all_args defaults (arguments ++ argument ∷ [])) ≡ true
unfolding replace_all_args
any-replace_all_args defaults arguments argument = any-replace_loop arguments defaults [] argument
