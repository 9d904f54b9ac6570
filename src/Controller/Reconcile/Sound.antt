-- ===== src/Controller/Reconcile/Sound.antt =====
-- What a reconcile does to the informers' stop channels.
use csm_operator.Prelude.{
  Bool, true, false, not, Option, none, some, if◌then◌else◌, Result, ok, err, Err,
}
use csm_operator.Prelude.Text.{Text}
use csm_operator.Exec.{Exec, continue, ◌>>=◌, ◌>>◌, pure, lift}
use csm_operator.Csm.{Csm, is_being_deleted}
use csm_operator.Files.{OperatorConfig}
use csm_operator.Watches.Lifecycle.{IsSound, start_watch-IsSound, stop_watch-IsSound}
use csm_operator.Controller.{Parts, Reconciler}
use csm_operator.Controller.Deletion.{clean_up, stop_after, delete_csm}
use csm_operator.Controller.Reconcile.{
  Outcome, finished, again, on_world, swap_watch, watch_content, complete, after_sync, install,
  proceed, reject, checked, reconcile_csm, after_read, reconcile,
}

-- A call leaves sound channels sound.
abbrev Keeps {ℓ} : {W : Type 0} {A : Type ℓ} → Exec (Reconciler W) A → Type 0
Keeps {W} m = (r : Reconciler W) → IsSound r.watches → IsSound (m r).1.watches

continue-Keeps {ℓ κ} :
    {W : Type 0} {A : Type ℓ} {B : Type κ} (a : Result A) (f : A → Exec (Reconciler W) B)
    → ((x : A) → Keeps (f x))
    → Keeps (continue a f)
continue-Keeps (ok a) f k r h = k a r h
continue-Keeps (err e) f k r h = h

>>=-Keeps {ℓ κ} :
    {W : Type 0} {A : Type ℓ} {B : Type κ} (m : Exec (Reconciler W) A)
    (f : A → Exec (Reconciler W) B)
    → Keeps m
    → ((x : A) → Keeps (f x))
    → Keeps (m >>= f)
unfolding ◌>>=◌
>>=-Keeps m f k l r h = continue-Keeps (m r).0 f l (m r).1 (k r h)

on_world-Keeps {ℓ} : {W : Type 0} {A : Type ℓ} (m : Exec W A) → Keeps (on_world m)
unfolding on_world
on_world-Keeps m r h = h

delete_csm-Keeps : {W : Type 0} (parts : Parts W) (cr : Csm) → Keeps (delete_csm parts cr)
unfolding delete_csm stop_after
delete_csm-Keeps {W} parts cr r h = kept (clean_up parts cr r.world)
  where
    kept : (o : Result (Unit {0}) × W) → IsSound (stop_after cr r o).1.watches
    kept (ok t, w) = stop_watch-IsSound cr.name r.watches h
    kept (err e, w) = h

watch_content-Keeps : {W : Type 0} (parts : Parts W) (cr : Csm) → Keeps (watch_content parts cr)
unfolding watch_content swap_watch pure
watch_content-Keeps {W} parts cr = >>=-Keeps _ _ (on_world-Keeps _) behind
  where
    behind :
        (o : Result (Unit {0}))
        → Keeps {W = W} {A = Outcome}
            (elim o [ err e ↦ pure (again e) | ok _ ↦ swap_watch cr >> pure finished ])
    behind (err e) = λ r h. h
    behind (ok t) = >>=-Keeps _ _ (λ r h. start_watch-IsSound cr.name r.watches h) (λ _ r h. h)

complete-Keeps :
    {W : Type 0} (parts : Parts W) (u : Bool) (op : OperatorConfig) (cr : Csm)
    → Keeps (complete parts u op cr)
unfolding complete pure
complete-Keeps {W} parts u op cr = >>=-Keeps _ _ (on_world-Keeps _) λ (cr', e). behind u cr' e
  where
    behind :
        (u : Bool) (cr' : Csm) (e : Option Err)
        → Keeps {W = W} {A = Outcome} (elim e [
          | some x ↦ if not u then pure (again x) else watch_content parts cr'
          | none ↦ watch_content parts cr'
        ])
    behind true cr' (some x) = watch_content-Keeps parts cr'
    behind false cr' (some x) = λ r h. h
    behind u cr' none = watch_content-Keeps parts cr'

after_sync-Keeps :
    {W : Type 0} (parts : Parts W) (u : Bool) (op : OperatorConfig) (cr : Csm) (b : Bool)
    (o : Result (Unit {0}))
    → Keeps (after_sync parts u op cr b o)
unfolding after_sync pure
after_sync-Keeps parts u op cr b (err e) = λ r h. h
after_sync-Keeps parts u op cr true (ok t) = λ r h. h
after_sync-Keeps parts u op cr false (ok t) = complete-Keeps parts u op cr

install-Keeps :
    {W : Type 0} (parts : Parts W) (u : Bool) (op : OperatorConfig) (cr : Csm)
    → Keeps (install parts u op cr)
unfolding install
install-Keeps parts u op cr = >>=-Keeps _ _ (on_world-Keeps _) λ finalized.
    >>=-Keeps _ _ (on_world-Keeps _) λ versioned. >>=-Keeps _ _ (on_world-Keeps _) λ success.
      >>=-Keeps _ _ (on_world-Keeps _)
        λ synced. after_sync-Keeps parts u op success.0 success.1 synced

checked-Keeps :
    {W : Type 0} (parts : Parts W) (u : Bool) (op : OperatorConfig) (cr : Csm) (o : Result Csm)
    → Keeps (checked parts u op cr o)
unfolding checked proceed reject pure
checked-Keeps parts u op cr (err e) = λ r h. h
checked-Keeps {W} parts u op cr (ok cr') =
    elim (is_being_deleted cr')
      as (λ b.
        Keeps {W = W}
          (if b then (delete_csm parts cr' >> pure finished) else install parts u op cr')) [
            | true ↦ >>=-Keeps _ _ (delete_csm-Keeps parts cr') (λ _ r h. h)
            | false ↦ install-Keeps parts u op cr'
          ]

reconcile_csm-Keeps :
    {W : Type 0} (parts : Parts W) (u : Bool) (op : OperatorConfig) (stored : Csm)
    → Keeps (reconcile_csm parts u op stored)
unfolding reconcile_csm lift
reconcile_csm-Keeps parts u op stored =
    >>=-Keeps _ _ (λ r h. h)
      λ cr. >>=-Keeps _ _ (on_world-Keeps _) λ result. checked-Keeps parts u op cr result

after_read-Keeps :
    {W : Type 0} (parts : Parts W) (u : Bool) (op : OperatorConfig) (found : Result Csm)
    → Keeps (after_read parts u op found)
unfolding after_read pure
after_read-Keeps parts u op (err e) = λ r h. h
after_read-Keeps parts u op (ok cr) = reconcile_csm-Keeps parts u op cr

-- Whatever a reconcile runs into, where the stop channels are sound before it, they are behind it: no
-- channel is closed twice, the ones that are registered are open, and no two names share one.
pub reconcile-IsSound :
    {W : Type 0} (parts : Parts W) (u : Bool) (op : OperatorConfig) (namespace name : Text)
    (r : Reconciler W)
    → IsSound r.watches
    → IsSound (reconcile parts u op namespace name r).1.watches
unfolding reconcile on_world
reconcile-IsSound parts u op namespace name r h = after_read-Keeps parts u op _ _ h
