-- ===== src/Images/Apply/Chosen.antt =====
-- The image that a container gets.
use csm_operator.Prelude.{
  Bool, true, false, List, [], ◌∷◌, map, ◌≡◌, refl, ok, >>=-eq-ok, ap, sym, ◌∙◌, Bool-cases, inl,
  inr, ok_or,
}
use csm_operator.Prelude.Text.{Text, text_eq, text_eq_iff, is_empty}
use csm_operator.Csm.{Csm, ContainerTemplate}
use csm_operator.Images.{VersionSpec, EnvApply, mapped_image}
use csm_operator.Images.Containers.{replace_all_apply_custom_envs-names}
use csm_operator.Images.Apply.{
  ContainerApply, chosen_image, set_policy, apply_template, unnamed_image, apply_templates,
  update_container_apply,
}

abbrev pub env_names : ContainerApply → List Text
env_names c = map (λ (e : EnvApply). e.name) c.env

module _ (cr : Csm) (matched : VersionSpec) where
  -- What a template leaves: the name and the names of the variables, with the version's image.
  apply_template_lem :
      (ctr : ContainerTemplate) (c : ContainerApply) {c' : ContainerApply}
      → apply_template cr matched ctr c ≡ ok c'
      → (c'.name ≡ c.name)
        × (env_names c' ≡ env_names c)
        × (c'.image ≡ chosen_image cr matched ctr c.image)
  unfolding apply_template
  apply_template_lem ctr c h =
      let (policy, e, h') = >>=-eq-ok (set_policy ctr.image_pull_policy c.image_pull_policy) _ h in
      (
        sym (ap (λ r. (ok_or c r).name) h'),
        sym (ap (λ r. env_names (ok_or c r)) h')
            ∙ replace_all_apply_custom_envs-names c.env [] ctr.envs,
        sym (ap (λ r. (ok_or c r).image) h'),
      )

  chosen_version :
      (ctr : ContainerTemplate) (image : Text) (name : Text)
      → name ≡ ctr.name
      → is_empty (mapped_image matched name) ≡ false
      → chosen_image cr matched ctr image ≡ mapped_image matched name
  unfolding chosen_image
  chosen_version ctr image name n e =
      rw (ap (λ x. is_empty (mapped_image matched x)) (sym n) ∙ e)
        (ap (mapped_image matched) (sym n))

  apply_templates-version :
      (in_spec : Bool) (ts : List ContainerTemplate) (c : ContainerApply) {c' : ContainerApply}
      → is_empty (mapped_image matched c.name) ≡ false
      → (in_spec ≡ true → c.image ≡ mapped_image matched c.name)
      → apply_templates cr matched in_spec ts c ≡ ok c'
      → (c'.image ≡ mapped_image matched c.name) × (env_names c' ≡ env_names c)
  unfolding apply_templates unnamed_image
  apply_templates-version true [] c e i h =
      (sym (ap (λ r. (ok_or c r).image) h) ∙ i refl, sym (ap (λ r. env_names (ok_or c r)) h))
  apply_templates-version false [] c e i h =
      (sym (ap (λ r. (ok_or c r).image) h) ∙ rw (e) refl, sym (ap (λ r. env_names (ok_or c r)) h))
  apply_templates-version in_spec (ctr ∷ ts) c e i h = elim (Bool-cases (text_eq c.name ctr.name)) [
    | inr d ↦ apply_templates-version in_spec ts c e i (rw (d) at h)
    | inl d ↦
        let (c1, a, h') = >>=-eq-ok (apply_template cr matched ctr c) _ (rw (d) at h) in
        let (n, names, image) = apply_template_lem ctr c a in
        let chosen = chosen_version ctr c.image c.name ((text_eq_iff _ _).0 d) e in
        let (image', names') =
          apply_templates-version true ts c1 (ap (λ x. is_empty (mapped_image matched x)) n ∙ e)
            (λ t. image ∙ chosen ∙ ap (mapped_image matched) (sym n)) h' in
        (image' ∙ ap (mapped_image matched) n, names' ∙ names)
  ]

-- A container for which the matched version has an image gets that image, whether the resource names the
-- container, once or more, or not, and whatever image or registry it gives; and the container keeps
-- the names of its variables, in their order.
pub update_container_apply-version :
    (templates : List ContainerTemplate) (c c' : ContainerApply) (cr : Csm) (matched : VersionSpec)
    → is_empty (mapped_image matched c.name) ≡ false
    → update_container_apply templates c cr matched ≡ ok c'
    → (c'.image ≡ mapped_image matched c.name) × (env_names c' ≡ env_names c)
unfolding update_container_apply
update_container_apply-version templates c c' cr matched e h =
    apply_templates-version cr matched false templates c e (λ t. cc) h
