-- ===== src/Drivers/Volumes.antt =====
-- A volume that is taken out of a daemon set: `RemoveVolume` and `RemoveInitVolume` of
-- pkg/drivers/powerflex.go, of a daemon set that is not nil. A name may be a nil pointer.
pub mod Counts
use csm_operator.Prelude.{
  Bool, true, false, Option, none, some, List, [], ◌∷◌, ◌++◌, if◌then◌else◌, any,
}
use csm_operator.Prelude.Text.{Text, text_eq}

abbrev pub is_named : Text → Option Text → Bool
is_named name none = false
is_named name (some n) = text_eq n name

-- The loop with its `break`: the first of the name is taken out.
unfoldable pub remove_first : Text → List (Option Text) → List (Option Text)
remove_first name [] = []
remove_first name (v ∷ vs) =
    let rest = remove_first name vs in if is_named name v then vs else v ∷ rest

-- The loop over the containers' mounts, which returns behind the first mount that it has taken out.
unfoldable pub remove_mount : Text → List (List (Option Text)) → List (List (Option Text))
remove_mount name [] = []
remove_mount name (c ∷ cs) =
    let rest = remove_mount name cs in
    if any (is_named name) c then remove_first name c ∷ cs else c ∷ rest

-- The names of the volumes, and of the volumes that each container and each init container mounts.
pub record PodTemplate : Type 0 where
  pub volumes : List (Option Text)
  pub mounts : List (List (Option Text))
  pub init_mounts : List (List (Option Text))

unfoldable pub remove_volume : Text → PodTemplate → PodTemplate
remove_volume name t = record t {
  volumes = remove_first name t.volumes;
  mounts = remove_mount name t.mounts;
}

unfoldable pub remove_init_volume : Text → PodTemplate → PodTemplate
remove_init_volume name t = record t {
  volumes = remove_first name t.volumes;
  init_mounts = remove_mount name t.init_mounts;
}
