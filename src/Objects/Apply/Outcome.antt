-- ===== src/Objects/Apply/Outcome.antt =====
-- What a store holds behind `ApplyObject`, and behind `applyDeleteObjects` in both directions.
use csm_operator.Prelude.{
  ℕ, true, false, not, ◌&&◌, ◌||◌, Option, some, List, map, ◌≡◌, ◌⊎◌, inl, inr, refl, arith,
  if◌then◌else◌, Result, ok, err, Err, Bool-cases,
}
use csm_operator.Exec.{◌>>=◌, ◌>>◌, pure, raise, attempt}
use csm_operator.Objects.{Key, key_eq, Object, ObjectClient, IsStore, is_refusal, is_not_found}
use csm_operator.Objects.Store.{named, is_not_found-true, read-elim, Removes, >>-Changes}
use csm_operator.Objects.Apply.{
  unless_refused, merged, apply_found, apply_object, apply_delete_objects,
}
use csm_operator.Objects.Apply.Upsert.{
  merged-key, apply_delete_objects-Adds, apply_delete_objects-Removes,
}

-- A world has this body under the key, and beside it what another has.
abbrev pub Written : {W : Type 0} → (W → Key → Option ℕ) → Key → ℕ → W → W → Type 0
Written holds k body w w' = (j : Key) → holds w' j ≡ (if key_eq k j then some body else holds w j)

-- A world has what another has.
abbrev pub Untouched : {W : Type 0} → (W → Key → Option ℕ) → W → W → Type 0
Untouched holds w w' = (j : Key) → holds w' j ≡ holds w j

module _ {W : Type 0} (c : ObjectClient W) (holds : W → Key → Option ℕ) where
  -- A read has found no object, and the object is created.
  abbrev pub Created : Object → W → W → Type 0
  Created o w w' = ((c.get o.key w).0 ≡ err Err.not_found) × Written holds o.key o.body w w'

  -- A read has found an object, and the new one over it is stored.
  abbrev pub Updated : Object → W → W → Type 0
  Updated o w w' =
      (found : Object) × ((c.get o.key w).0 ≡ ok found)
      × ((c.update (merged c o found) w).0 ≡ ok tt)
      × Written holds o.key (merged c o found).body w w'

  -- A read has found an object, and the server has refused the update.
  abbrev pub Refused : Object → W → W → Type 0
  Refused o w w' =
      (found : Object) × (e : Err) × ((c.get o.key w).0 ≡ ok found)
      × ((c.update (merged c o found) w).0 ≡ err e)
      × (is_refusal e ≡ true)
      × Untouched holds w w'

module _ {W : Type 0} (c : ObjectClient W) (holds : W → Key → Option ℕ) (s : IsStore c holds) where
  -- What an update that does not fail has done.
  update_outcome :
      (o : Object) (k : Key) (w : W) (r : Result (Unit {0}))
      → o.key ≡ k
      → (c.update o w).0 ≡ r
      → (unless_refused r (c.update o w).1).0 ≡ ok tt
      → ((r ≡ ok tt) × Written holds k o.body w (unless_refused r (c.update o w).1).1)
        ⊎ ((e : Err) × (r ≡ err e)
            × (is_refusal e ≡ true)
            × Untouched holds w (unless_refused r (c.update o w).1).1)
  unfolding unless_refused pure raise
  update_outcome o k w (ok t) e u h = inl (refl, λ j. ground (arith, s.update_ok o w j u, e))
  update_outcome o k w (err x) e u h = elim (Bool-cases (is_refusal x)) [
    | inl q ↦ inr (x, refl, q, λ j. ground (arith, s.update_refused o w j x u q))
    | inr q ↦ cc
  ]

  found_outcome :
      (o : Object) (w : W) (r : Result Object)
      → (c.get o.key w).0 ≡ r
      → (apply_found c o r w).0 ≡ ok tt
      → Created c holds o w (apply_found c o r w).1
        ⊎ (Updated c holds o w (apply_found c o r w).1
            ⊎ Refused c holds o w (apply_found c o r w).1)
  unfolding apply_found raise attempt ◌>>=◌
  found_outcome o w (ok found) g h =
      elim (update_outcome (merged c o found) o.key w _ (merged-key c holds s o found) refl h) [
        | inl (u, p) ↦ inr (inl (found, g, u, p))
        | inr (e, u, q, p) ↦ inr (inr (found, e, g, u, q, p))
      ]
  found_outcome o w (err e) g h = elim (Bool-cases (is_not_found e)) [
    | inl q ↦ inl (ground (arith, is_not_found-true e q), λ j. ground (arith, s.create_ok o w j))
    | inr q ↦ cc
  ]

  -- An application that succeeds has created the object, or has stored it over the one that was
  -- there, or was refused and has changed nothing at all.
  pub apply_object-outcome :
      (o : Object) (w : W)
      → (apply_object c o w).0 ≡ ok tt
      → Created c holds o w (apply_object c o w).1
        ⊎ (Updated c holds o w (apply_object c o w).1 ⊎ Refused c holds o w (apply_object c o w).1)
  unfolding apply_object
  apply_object-outcome o w =
      read-elim (c.get o.key) (s.get_world o.key)
        (λ p. Created c holds o w p.1 ⊎ (Updated c holds o w p.1 ⊎ Refused c holds o w p.1))
        (apply_found c o) w (found_outcome o w (c.get o.key w).0 refl)

  -- Applying the objects of a manifest and deleting them, where both succeed, leaves the keys that
  -- were there before, less those of the manifest.
  pub delete_objects-apply_objects :
      (os : List Object)
      → Removes holds
          (map (λ o. o.key) os)
          (apply_delete_objects c false os >> apply_delete_objects c true os)
  delete_objects-apply_objects os w j h =
      let ks = map (λ (o : Object). o.key) os in
      ground (
        arith,
        >>-Changes holds (λ j b. named ks j || b) (λ j b. not (named ks j) && b) _ _
            (apply_delete_objects-Adds c holds s os) (apply_delete_objects-Removes c holds s os) w j
            h,
      )
