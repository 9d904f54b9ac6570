-- ===== src/Drivers/Volumes/Counts.antt =====
-- How often a volume is named.
use csm_operator.Prelude.{
  ℕ, ◌+◌, ◌-◌, ◌≤◌, ap, Bool-cases, inl, inr, false, true, false, Option, none, some, List, [], ◌∷◌,
  ◌≡◌, refl, arith, if◌then◌else◌, any,
}
use csm_operator.Prelude.Text.{Text, text_eq, text_eq_iff}
use csm_operator.Drivers.Volumes.{
  PodTemplate, is_named, remove_first, remove_mount, remove_volume, remove_init_volume,
}

abbrev pub times : Text → List (Option Text) → ℕ
times name [] = 0
times name (v ∷ vs) = (if is_named name v then 1 else 0) + times name vs

abbrev pub times_mounted : Text → List (List (Option Text)) → ℕ
times_mounted name [] = 0
times_mounted name (c ∷ cs) = times name c + times_mounted name cs

-- How many of the named volume go, of those with the name `other`.
abbrev pub taken : Text → Text → ℕ
taken name other = if text_eq name other then 1 else 0

is_named-other :
    (name other : Text) (v : Option Text)
    → is_named name v ≡ true
    → is_named other v ≡ text_eq name other
is_named-other name other none h = cc
is_named-other name other (some n) h = ap (λ x. text_eq x other) ((text_eq_iff n name).0 h)

times_one :
    (name other : Text) (v : Option Text) (vs : List (Option Text))
    → is_named name v ≡ true
    → times other vs ≡ times other (v ∷ vs) - taken name other
times_one name other v vs h = ground (arith, is_named-other name other v h)

-- What is not the named volume, or is not there, loses nothing.
times_kept :
    (name other : Text) (v : Option Text)
    → is_named name v ≡ false
    → is_named other v ≡ true
    → text_eq name other ≡ false
times_kept name other v h k = elim (Bool-cases (text_eq name other)) [
  | inr e ↦ e
  | inl e ↦ let same : name ≡ other = (text_eq_iff name other).0 e in cc
]

times-remove_first :
    (name other : Text) (vs : List (Option Text))
    → times other (remove_first name vs) ≡ times other vs - taken name other
unfolding remove_first
times-remove_first name other [] = ground arith
times-remove_first name other (v ∷ vs) =
    ground (
      arith,
      times-remove_first name other vs,
      is_named-other name other v,
      times_kept name other v,
    )

times_none :
    (name other : Text) (vs : List (Option Text))
    → any (is_named name) vs ≡ false
    → times other vs ≡ times other vs - taken name other
unfolding any
times_none name other [] h = ground arith
times_none name other (v ∷ vs) h = ground (arith, times_none name other vs, times_kept name other v)

times_some :
    (name other : Text) (vs : List (Option Text))
    → any (is_named name) vs ≡ true
    → taken name other ≤ times other vs
unfolding any
times_some name other [] h = cc
times_some name other (v ∷ vs) h =
    ground (arith, times_some name other vs, is_named-other name other v)

times_mounted-remove_mount :
    (name other : Text) (cs : List (List (Option Text)))
    → times_mounted other (remove_mount name cs) ≡ times_mounted other cs - taken name other
unfolding remove_mount
times_mounted-remove_mount name other [] = ground arith
times_mounted-remove_mount name other (c ∷ cs) = ground (
  arith,
  times-remove_first name other c,
  times_none name other c,
  times_some name other c,
  times_mounted-remove_mount name other cs,
)

-- Both functions take one of the volumes with the given name, if there is one, and none with another
-- name. Of the mounts, `RemoveVolume` takes one with the name out of all those of the containers, if
-- there is one, and none with another name, and leaves the init containers' mounts as they are;
-- `RemoveInitVolume` does so with the mounts of the init containers, and leaves those of the containers.
pub remove_volume-times :
    (name other : Text) (t : PodTemplate)
    → (times other (remove_volume name t).volumes ≡ times other t.volumes - taken name other)
      × (times other (remove_init_volume name t).volumes ≡ times other t.volumes - taken name other)
      × (times_mounted other (remove_volume name t).mounts
          ≡ times_mounted other t.mounts - taken name other)
      × ((remove_volume name t).init_mounts ≡ t.init_mounts)
      × (times_mounted other (remove_init_volume name t).init_mounts
          ≡ times_mounted other t.init_mounts - taken name other)
      × ((remove_init_volume name t).mounts ≡ t.mounts)
unfolding remove_volume remove_init_volume
remove_volume-times name other t = (
  times-remove_first name other t.volumes,
  times-remove_first name other t.volumes,
  times_mounted-remove_mount name other t.mounts,
  refl,
  times_mounted-remove_mount name other t.init_mounts,
  refl,
)
