-- ===== src/Drivers/Placeholders/Unmentioned.antt =====
-- Files without placeholders.
use csm_operator.Prelude.{
  zero, Bool, true, false, not, ◌&&◌, List, [], ◌∷◌, ◌++◌, ◌≡◌, refl, arith, ap, ◌∙◌, all, sym,
  &&-left, &&-right,
}
use csm_operator.Prelude.Text.{Text, contains, replace_all, replace_from}
use csm_operator.Csm.{Csm}
use csm_operator.Drivers.Placeholders.{
  Change, substitute, power_scale_changes, unity_changes, modify_power_scale_cr, modify_unity_cr,
}
use csm_operator.Drivers.Placeholders.Flex.{
  power_flex_changes, power_max_changes, modify_powerflex_cr, modify_powermax_cr,
}

replace_from_absent : (old new s : Text) → contains s old ≡ false → replace_from old new zero s ≡ s
unfolding replace_from contains
replace_from_absent old new [] h = refl
replace_from_absent old new (c ∷ s) h = ground (arith, replace_from_absent old new s)

-- The text has none of what the changes look for.
abbrev pub mentions_none : Text → List Change → Bool
mentions_none s = all (λ change. not (contains s change.0))

substitute_absent :
    (changes : List Change) (s : Text) → mentions_none s changes ≡ true → substitute changes s ≡ s
unfolding substitute all replace_all
substitute_absent [] s h = refl
substitute_absent ((old, new) ∷ changes) s h =
    ap (substitute changes) (replace_from_absent old new s (ground (arith, h)))
    ∙ substitute_absent changes s (&&-right (not (contains s old)) (mentions_none s changes) h)

mentions_none-append :
    (s : Text) (before behind : List Change)
    → mentions_none s (before ++ behind) ≡ (mentions_none s before && mentions_none s behind)
unfolding all
mentions_none-append s [] behind = refl
mentions_none-append s (c ∷ before) behind = ground (arith, mentions_none-append s before behind)

-- The changes of the four drivers in a file of this type.
abbrev pub all_changes : Csm → Text → List Change
all_changes cr file =
    (power_scale_changes cr file ++ unity_changes cr file)
    ++ (power_flex_changes cr file ++ power_max_changes cr file)

-- A file that has none of the placeholders of these drivers for files of its type stays as it is.
pub modify_cr_absent :
    (yaml file : Text) (cr : Csm)
    → mentions_none yaml (all_changes cr file) ≡ true
    → (modify_power_scale_cr yaml cr file ≡ yaml)
      × (modify_unity_cr yaml cr file ≡ yaml)
      × (modify_powerflex_cr yaml cr file ≡ yaml)
      × (modify_powermax_cr yaml cr file ≡ yaml)
unfolding modify_power_scale_cr modify_unity_cr modify_powerflex_cr modify_powermax_cr
modify_cr_absent yaml file cr h =
    let scale = power_scale_changes cr file in
    let unity = unity_changes cr file in
    let flex = power_flex_changes cr file in
    let max = power_max_changes cr file in
    let halves = sym (mentions_none-append yaml (scale ++ unity) (flex ++ max)) ∙ h in
    let left = sym (mentions_none-append yaml scale unity) ∙ &&-left _ _ halves in
    let right = sym (mentions_none-append yaml flex max) ∙ &&-right _ _ halves in
    (
      substitute_absent scale yaml (&&-left _ _ left),
      substitute_absent unity yaml (&&-right _ _ left),
      substitute_absent flex yaml (&&-left _ _ right),
      substitute_absent max yaml (&&-right _ _ right),
    )
