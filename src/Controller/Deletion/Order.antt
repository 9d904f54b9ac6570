-- ===== src/Controller/Deletion/Order.antt =====
-- The order of a deletion: the finalizer goes last, and the informers stop behind it.
use csm_operator.Prelude.{
  Bool, true, false, none, some, List, [], ◌∷◌, ◌≡◌, refl, ap, ◌∙◌, wrap-eq-ok, arith,
  if◌then◌else◌, Result, ok, err, Err, All, Bool-cases, inl, inr,
}
use csm_operator.Prelude.Text.{Text, codes, text_eq}
use csm_operator.Prelude.Dict.{lookup}
use csm_operator.Exec.{◌>>=◌, ◌>>◌, >>=-ok, lift}
use csm_operator.Csm.{Csm}
use csm_operator.Cluster.{OwnerReference}
use csm_operator.Watches.{stop_watch}
use csm_operator.Watches.Lifecycle.{stop_watch-lookup}
use csm_operator.Controller.{Parts, Reconciler}
use csm_operator.Controller.Prechecks.{owner_found}
use csm_operator.Controller.Deletion.{
  other_owners, or_nil, force_remove, release_driver, remove_modules, clean_up, stop_after,
  delete_csm,
}

-- Where the driver is to be removed and its removal fails, the deletion ends there with the error:
-- no further call is made, and the informers are as before.
pub delete_csm_stuck :
    {W : Type 0} (parts : Parts W) (cr : Csm) (r : Reconciler W) (e : Err) (w : W)
    → cr.spec.driver.force_remove_driver ≡ some true
    → parts.remove_driver cr r.world ≡ (err e, w)
    → delete_csm parts cr r
      ≡ (err (Err.wrapped (codes "error when deleting driver") e), record r { world = w })
unfolding delete_csm stop_after clean_up force_remove release_driver ◌>>=◌ lift
delete_csm_stuck parts cr r e w f d = ground (arith, f, d)

driver_released :
    {W : Type 0} (parts : Parts W) (cr : Csm) (b : Bool) (w : W)
    → (release_driver parts cr b w).0 ≡ ok tt
    → b ≡ true
    → (parts.remove_driver cr w).0 ≡ ok tt
unfolding release_driver
driver_released parts cr true w h t = wrap-eq-ok _ (parts.remove_driver cr w).0 h
driver_released parts cr false w h t = cc

released :
    {W : Type 0} (parts : Parts W) (cr : Csm) (b : Bool) (w : W)
    → cr.spec.driver.force_remove_driver ≡ some b
    → (clean_up parts cr w).0 ≡ ok tt
    → b ≡ true
    → (parts.remove_driver cr w).0 ≡ ok tt
unfolding clean_up force_remove release_driver lift
released parts cr b w f h t =
    let (b', l, rest) = >>=-ok (lift (force_remove cr)) _ w h in
    let (u, most, _) =
      >>=-ok (release_driver parts cr b' >> remove_modules parts cr cr.spec.modules) _ w rest in
    let (v, d, _) = >>=-ok (release_driver parts cr b') _ w most in
    driver_released parts cr b' w d (ground arith)

pub cleaned_up :
    {W : Type 0} (cr : Csm) (r : Reconciler W) (o : Result (Unit {0}) × W)
    → (stop_after cr r o).0 ≡ ok tt
    → o.0 ≡ ok tt
unfolding stop_after
cleaned_up cr r (ok t, w) h = refl
cleaned_up cr r (err e, w) h = cc

stopped :
    {W : Type 0} (cr : Csm) (r : Reconciler W) (o : Result (Unit {0}) × W)
    → (stop_after cr r o).0 ≡ ok tt
    → (stop_after cr r o).1.watches ≡ stop_watch cr.name r.watches
unfolding stop_after
stopped cr r (ok t, w) h = refl
stopped cr r (err e, w) h = cc

-- A deletion that succeeds has removed the driver, where that was asked for.
pub delete_csm_removed :
    {W : Type 0} (parts : Parts W) (cr : Csm) (r : Reconciler W)
    → cr.spec.driver.force_remove_driver ≡ some true
    → (delete_csm parts cr r).0 ≡ ok tt
    → (parts.remove_driver cr r.world).0 ≡ ok tt
unfolding delete_csm
delete_csm_removed parts cr r f h =
    released parts cr true r.world f (cleaned_up cr r (clean_up parts cr r.world) h) refl

-- Behind a deletion that succeeds no informer is registered under the resource's name, and those
-- under other names are as before.
delete_csm_stops :
    {W : Type 0} (parts : Parts W) (cr : Csm) (r : Reconciler W) (k : Text)
    → (delete_csm parts cr r).0 ≡ ok tt
    → lookup (delete_csm parts cr r).1.watches.channels k
      ≡ (if text_eq cr.name k then none else lookup r.watches.channels k)
unfolding delete_csm
delete_csm_stops parts cr r k h =
    ap (λ s. lookup s.channels k) (stopped cr r (clean_up parts cr r.world) h)
    ∙ stop_watch-lookup cr.name k r.watches

-- No reference of the resource is left.
other_owners-none :
    (cr : Csm) (rs : List OwnerReference)
    → All (λ (r : OwnerReference). text_eq r.uid cr.uid ≡ false) (other_owners cr rs)
unfolding other_owners
other_owners-none cr [] = tt
other_owners-none cr (r ∷ rs) = elim (Bool-cases (text_eq r.uid cr.uid)) [
  | inl e ↦ rw e (other_owners-none cr rs)
  | inr e ↦ rw e (e, other_owners-none cr rs)
]

other_owners-All :
    (cr : Csm) (rs : List OwnerReference)
    → All (λ (r : OwnerReference). text_eq r.uid cr.uid ≡ true) rs
    → other_owners cr rs ≡ []
unfolding other_owners
other_owners-All cr [] h = refl
other_owners-All cr (r ∷ rs) (p, h) = rw p (other_owners-All cr rs h)

-- A deployment whose owners are all the deleted resource is left without references, and any
-- resource that adopts it later passes the owner check.
pub owner_found_after :
    (cr cr' : Csm) (rs : List OwnerReference)
    → All (λ (r : OwnerReference). text_eq r.uid cr.uid ≡ true) rs
    → owner_found cr' (or_nil (other_owners cr rs)) ≡ true
unfolding owner_found
owner_found_after cr cr' rs h = rw (other_owners-All cr rs h)
