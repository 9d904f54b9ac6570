-- ===== src/Images/Resolve.antt =====
-- What a custom registry changes in an image's name.
use csm_operator.Prelude.{
  ℕ, Bool, true, false, ◌||◌, Option, none, some, [], ◌∷◌, ◌++◌, ◌≡◌, refl, ap, sym, ◌∙◌, arith,
  if◌then◌else◌, ◌==◌, ==_iff, Bool-cases, inl, inr,
}
use csm_operator.Prelude.Text.{
  Text, codes, text_eq, is_empty, has_prefix, contains, trim_space, cut_at, behind_last_from,
  behind_last,
}
use csm_operator.Csm.{Csm}
use csm_operator.Images.{retained_path, resolve_image}

-- What stands before a separator does not matter.
behind_last_from-append :
    (sep : ℕ) (a b last : Text)
    → behind_last_from sep (a ++ sep ∷ b) last ≡ behind_last_from sep b b
unfolding behind_last_from
behind_last_from-append sep [] b last = ground arith
behind_last_from-append sep (c ∷ a) b last =
    behind_last_from-append sep a b (if c == sep then a ++ sep ∷ b else last)

-- The text that is kept has the same separators to come.
behind_last_from_idem :
    (sep : ℕ) (s last : Text)
    → ((x : Text) → behind_last_from sep last x ≡ behind_last_from sep s x)
    → behind_last sep (behind_last_from sep s last) ≡ behind_last_from sep s last
unfolding behind_last_from behind_last
behind_last_from_idem sep [] last h = h last
behind_last_from_idem sep (c ∷ s) last h = elim (Bool-cases (c == sep)) [
  | inl e ↦ rw e (behind_last_from_idem sep s s (λ x. refl))
  | inr e ↦ rw e (behind_last_from_idem sep s last (λ x. rw e at (h x)))
]

-- The text that a cut came from.
abbrev CutOf : ℕ → Text → Option (Text × Text) → Type 0
CutOf sep s none = Unit {0}
CutOf sep s (some (a, b)) = s ≡ a ++ sep ∷ b

cons-CutOf :
    (sep c : ℕ) (s : Text) (o : Option (Text × Text))
    → CutOf sep s o
    → CutOf sep (c ∷ s) (elim o [ none ↦ none | some (a, b) ↦ some (c ∷ a, b) ])
cons-CutOf sep c s none h = tt
cons-CutOf sep c s (some (a, b)) h = ap (λ r. c ∷ r) h

cut_at-CutOf : (sep : ℕ) (s : Text) → CutOf sep s (cut_at sep s)
unfolding cut_at
cut_at-CutOf sep [] = tt
cut_at-CutOf sep (c ∷ s) = elim (Bool-cases (c == sep)) [
  | inl e ↦ rw e (ap (λ d. d ∷ s) ((==_iff c sep).0 e))
  | inr e ↦ rw e (cons-CutOf sep c s (cut_at sep s) (cut_at-CutOf sep s))
]

behind_last-path :
    (image : Text) (o : Option (Text × Text)) (is_domain : Text → Bool)
    → CutOf b'/' image o
    → behind_last b'/' (elim o [ none ↦ image | some (a, b) ↦ if is_domain a then b else image ])
      ≡ behind_last b'/' image
unfolding behind_last
behind_last-path image none d h = refl
behind_last-path image (some (a, b)) d h = elim (Bool-cases (d a)) [
  | inl e ↦ rw e (sym (ap (behind_last b'/') h ∙ behind_last_from-append b'/' a b (a ++ b'/' ∷ b)))
  | inr e ↦ rw e
]

behind_last-retained_path :
    (image : Text) → behind_last b'/' (retained_path image) ≡ behind_last b'/' image
unfolding retained_path
behind_last-retained_path image =
    behind_last-path image (cut_at b'/' image)
      (λ a. contains a (codes ".") || text_eq a (codes "localhost")) (cut_at-CutOf b'/' image)

behind_last_idem :
    (image : Text) → behind_last b'/' (behind_last b'/' image) ≡ behind_last b'/' image
unfolding behind_last
behind_last_idem image = behind_last_from_idem b'/' image image (λ x. refl)

kept_part :
    (retain : Bool) (image : Text)
    → behind_last b'/' (if retain then retained_path image else behind_last b'/' image)
      ≡ behind_last b'/' image
kept_part true image = behind_last-retained_path image
kept_part false image = behind_last_idem image

-- Whatever the resource's registry is, and whether or not the path is kept: an image without spaces
-- around it keeps the part behind its last slash, the name with the tag.
pub behind_last-resolve_image :
    (image : Text) (cr : Csm)
    → trim_space image ≡ image
    → behind_last b'/' (resolve_image image cr) ≡ behind_last b'/' image
unfolding resolve_image behind_last
behind_last-resolve_image image cr t =
    let registry = trim_space cr.spec.custom_registry in
    elim (Bool-cases (is_empty registry)) [
      | inl e ↦ rw e
      | inr e ↦
          rw (e, t)
            (behind_last_from-append b'/' registry _ _
              ∙ kept_part cr.spec.retain_image_registry_path image)
    ]

has_prefix-common : (s t u : Text) → has_prefix (s ++ t) (s ++ u) ≡ has_prefix t u
unfolding has_prefix
has_prefix-common [] t u = refl
has_prefix-common (c ∷ s) t u = ground (arith, has_prefix-common s t u)

-- Where the registry has more than spaces, the image that is asked for begins with it and a slash.
pub has_prefix-resolve_image :
    (image : Text) (cr : Csm)
    → is_empty (trim_space cr.spec.custom_registry) ≡ false
    → has_prefix (resolve_image image cr) (trim_space cr.spec.custom_registry ++ codes "/") ≡ true
unfolding resolve_image has_prefix
has_prefix-resolve_image image cr h =
    rw h (has_prefix-common (trim_space cr.spec.custom_registry) _ (codes "/") ∙ refl)
