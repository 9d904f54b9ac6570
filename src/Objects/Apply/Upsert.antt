-- ===== src/Objects/Apply/Upsert.antt =====
-- Applying and deleting an object against an abstract store of keys.
use csm_operator.Prelude.{
  ℕ, true, false, not, ◌&&◌, ◌||◌, Option, none, some, List, [], ◌∷◌, map, ◌≡◌, refl, ap, arith,
  is_some, any, Result, ok, err, Err,
}
use csm_operator.Exec.{◌>>=◌, pure, raise, attempt}
use csm_operator.Objects.{Key, key_eq, Object, ObjectClient, IsStore, is_not_found}
use csm_operator.Objects.Store.{
  key_eq_iff, is_not_found-true, named, has, read-elim, Adds, Removes, pure-Adds, pure-Removes,
  >>-Adds, >>-Removes,
}
use csm_operator.Objects.Apply.{
  unless_missing, delete_found, delete_object, unless_refused, merged, apply_found, apply_object,
  apply_ctrl_found, apply_ctrl_object, apply_delete_objects,
}

module _ {W : Type 0} (c : ObjectClient W) (holds : W → Key → Option ℕ) (s : IsStore c holds) where
  -- What is there under a key that a read has not found.
  absent :
      (k j : Key) (w : W) (e : Err)
      → (c.get k w).0 ≡ err e
      → is_not_found e ≡ true
      → key_eq k j ≡ true
      → holds w j ≡ none
  absent k j w e g n q =
      ground (arith, is_not_found-true e n, s.get_missing k w, (key_eq_iff k j).0 q)

  found_there :
      (k j : Key) (w : W) (o : Object)
      → (c.get k w).0 ≡ ok o
      → key_eq k j ≡ true
      → holds w j ≡ some o.body
  found_there k j w o g q = ground (arith, s.get_ok k w o g, (key_eq_iff k j).0 q)

  pub missing-Removes :
      (k : Key) (w : W) (j : Key) (r : Result (Unit {0}))
      → (c.delete k w).0 ≡ r
      → (unless_missing r (c.delete k w).1).0 ≡ ok tt
      → has holds (unless_missing r (c.delete k w).1).1 j ≡ (not (key_eq k j) && has holds w j)
  unfolding unless_missing pure raise
  missing-Removes k w j (ok t) d h = ground (arith, s.delete_ok k w j d)
  missing-Removes k w j (err e) d h = ground (arith, is_not_found-true e, s.delete_missing k w j)

  delete_found-Removes :
      (k : Key) (w : W) (j : Key) (r : Result Object)
      → (c.get k w).0 ≡ r
      → (delete_found c k r w).0 ≡ ok tt
      → has holds (delete_found c k r w).1 j ≡ (not (key_eq k j) && has holds w j)
  unfolding delete_found pure raise attempt ◌>>=◌
  delete_found-Removes k w j (ok o) g h = missing-Removes k w j (c.delete k w).0 refl h
  delete_found-Removes k w j (err e) g h = ground (arith, absent k j w e g)

  pub delete_object-Removes : (k : Key) → Removes holds (k ∷ []) (delete_object c k)
  unfolding delete_object any
  delete_object-Removes k w j =
      read-elim (c.get k) (s.get_world k)
        (λ o. has holds o.1 j ≡ (not (named (k ∷ []) j) && has holds w j)) (delete_found c k) w
        (λ h. ground (arith, delete_found-Removes k w j (c.get k w).0 refl h))

  pub merged-key : (o found : Object) → (merged c o found).key ≡ o.key
  unfolding merged
  merged-key o found =
      elim (c.json_merge o found)
          as (λ r.
            (c.json_merge o found ≡ r)
            → (elim r as (λ _. Object) [ ok o' ↦ o' | err e ↦ o ]).key ≡ o.key) [
              | ok o' ↦ λ e. s.merge_key o found o' e
              | err x ↦ λ _. refl
            ]
        refl

  -- An update that is not refused writes the object, and one that is refused changes nothing; both
  -- times the object is there.
  refused-Adds :
      (o : Object) (k : Key) (w : W) (j : Key) (r : Result (Unit {0}))
      → o.key ≡ k
      → (key_eq k j ≡ true → has holds w j ≡ true)
      → (c.update o w).0 ≡ r
      → (unless_refused r (c.update o w).1).0 ≡ ok tt
      → has holds (unless_refused r (c.update o w).1).1 j ≡ (key_eq k j || has holds w j)
  unfolding unless_refused pure raise
  refused-Adds o k w j (ok t) e there u h =
      ground (arith, s.update_ok o w j u, ap (λ k. key_eq k j) e)
  refused-Adds o k w j (err x) e there u h = ground (arith, s.update_refused o w j x u)

  apply_found-Adds :
      (o : Object) (w : W) (j : Key) (r : Result Object)
      → (c.get o.key w).0 ≡ r
      → (apply_found c o r w).0 ≡ ok tt
      → has holds (apply_found c o r w).1 j ≡ (key_eq o.key j || has holds w j)
  unfolding apply_found raise attempt ◌>>=◌
  apply_found-Adds o w j (ok found) g h =
      refused-Adds (merged c o found) o.key w j _ (merged-key o found)
        (λ q. ap is_some (found_there o.key j w found g q)) refl h
  apply_found-Adds o w j (err e) g h = ground (arith, s.create_ok o w j)

  pub apply_object-Adds : (o : Object) → Adds holds (o.key ∷ []) (apply_object c o)
  unfolding apply_object any
  apply_object-Adds o w j =
      read-elim (c.get o.key) (s.get_world o.key)
        (λ p. has holds p.1 j ≡ (named (o.key ∷ []) j || has holds w j)) (apply_found c o) w
        (λ h. ground (arith, apply_found-Adds o w j (c.get o.key w).0 refl h))

  apply_ctrl_found-Adds :
      (o : Object) (w : W) (j : Key) (r : Result Object)
      → (c.get o.key w).0 ≡ r
      → (apply_ctrl_found c o r w).0 ≡ ok tt
      → has holds (apply_ctrl_found c o r w).1 j ≡ (key_eq o.key j || has holds w j)
  unfolding apply_ctrl_found raise
  apply_ctrl_found-Adds o w j (ok found) g h = ground (arith, s.update_ok o w j)
  apply_ctrl_found-Adds o w j (err e) g h = ground (arith, s.create_ok o w j)

  pub apply_ctrl_object-Adds : (o : Object) → Adds holds (o.key ∷ []) (apply_ctrl_object c o)
  unfolding apply_ctrl_object any
  apply_ctrl_object-Adds o w j =
      read-elim (c.get o.key) (s.get_world o.key)
        (λ p. has holds p.1 j ≡ (named (o.key ∷ []) j || has holds w j)) (apply_ctrl_found c o) w
        (λ h. ground (arith, apply_ctrl_found-Adds o w j (c.get o.key w).0 refl h))

  -- Applying objects adds their keys; deleting them removes these.
  pub apply_delete_objects-Adds :
      (os : List Object) → Adds holds (map (λ o. o.key) os) (apply_delete_objects c false os)
  unfolding apply_delete_objects
  apply_delete_objects-Adds [] = pure-Adds holds
  apply_delete_objects-Adds (o ∷ os) =
      >>-Adds holds (o.key ∷ []) (map (λ o. o.key) os) _ _ (apply_object-Adds o)
        (apply_delete_objects-Adds os)

  pub apply_delete_objects-Removes :
      (os : List Object) → Removes holds (map (λ o. o.key) os) (apply_delete_objects c true os)
  unfolding apply_delete_objects
  apply_delete_objects-Removes [] = pure-Removes holds
  apply_delete_objects-Removes (o ∷ os) =
      >>-Removes holds (o.key ∷ []) (map (λ o. o.key) os) _ _ (delete_object-Removes o.key)
        (apply_delete_objects-Removes os)
