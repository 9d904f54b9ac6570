-- ===== src/Prelude/Dict.antt =====
-- Go maps with string keys, as association lists; the order in which Go walks a map is open, and
-- so is the order of the list.
use mathlib.Core.Path.{◌≡◌, refl}
use mathlib.Core.Option.{Option, none, some}
use mathlib.Core.List.{List, [], ◌∷◌}
use native.Mathlib.Omega.{arith}
use csm_operator.Prelude.Tests.{if◌then◌else◌}
use csm_operator.Prelude.Text.{Text, text_eq, text_eq_iff}

abbrev pub Dict {ℓ} : Type ℓ → Type ℓ
Dict V = List (Text × V)

module _ {ℓ} {V : Type ℓ} where
  -- v, ok := m[k]
  unfoldable pub lookup : Dict V → Text → Option V
  lookup [] k = none
  lookup ((j, v) ∷ m) k = if text_eq j k then some v else lookup m k

  -- m[k] = v
  unfoldable pub insert : Dict V → Text → V → Dict V
  insert [] k v = (k, v) ∷ []
  insert ((j, w) ∷ m) k v = if text_eq j k then (k, v) ∷ m else (j, w) ∷ insert m k v

  -- delete(m, k)
  unfoldable pub delete : Dict V → Text → Dict V
  delete [] k = []
  delete ((j, w) ∷ m) k = let rest = delete m k in if text_eq j k then rest else (j, w) ∷ rest

  pub lookup-insert :
      (m : Dict V) (k j : Text) (v : V)
      → lookup (insert m k v) j ≡ (if text_eq k j then some v else lookup m j)
  unfolding lookup insert
  lookup-insert [] k j v = refl
  lookup-insert ((i, w) ∷ m) k j v =
      ground (arith, text_eq_iff k j, text_eq_iff i k, text_eq_iff i j, lookup-insert m k j v)

  pub lookup-delete :
      (m : Dict V) (k j : Text) → lookup (delete m k) j ≡ (if text_eq k j then none else lookup m j)
  unfolding lookup delete
  lookup-delete [] k j = ground arith
  lookup-delete ((i, w) ∷ m) k j =
      ground (arith, text_eq_iff k j, text_eq_iff i k, text_eq_iff i j, lookup-delete m k j)

  -- Writing what is there changes nothing.
  pub insert_id : (m : Dict V) (k : Text) (v : V) → lookup m k ≡ some v → insert m k v ≡ m
  unfolding lookup insert
  insert_id [] k v h = cc
  insert_id ((j, w) ∷ m) k v h = ground (arith, text_eq_iff j k, insert_id m k v)
