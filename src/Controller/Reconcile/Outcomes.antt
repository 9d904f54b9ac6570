-- ===== src/Controller/Reconcile/Outcomes.antt =====
-- What a reconcile has done when it returns.
use csm_operator.Prelude.{◌⊎◌, false, ◌+◌, true, some, ◌≡◌, ◌∙◌, arith, ok}
use csm_operator.Prelude.Text.{text_eq, text_eq_refl}
use csm_operator.Prelude.Dict.{lookup, insert, lookup-insert}
use csm_operator.Exec.{Exec, ◌>>=◌, attempt}
use csm_operator.Csm.{Csm, is_being_deleted}
use csm_operator.Files.{OperatorConfig}
use csm_operator.Watches.{Watches, start_watch}
use csm_operator.Watches.Lifecycle.{has}
use csm_operator.Controller.Deletion.{delete_csm}
use csm_operator.Controller.Reconcile.Done.{IsDone}
use csm_operator.Controller.{Parts, Reconciler}
use csm_operator.Controller.Prechecks.{pre_checks}
use csm_operator.Controller.Reconcile.{on_world, swap_watch, checked, Outcome}

-- Two resources of one name in two namespaces share their entry: the watch of the second closes
-- the channel of the first, whose own watch is lost.
pub swap_watch_collides :
    {W : Type 0} (a b : Csm) (r : Reconciler W)
    → a.name ≡ b.name
    → let s = (swap_watch b (swap_watch a r).1).1.watches in
      (has r.watches.next_channel s.closed ≡ true)
      × (lookup s.channels a.name ≡ some (r.watches.next_channel + 1))
unfolding swap_watch start_watch
swap_watch_collides a b r e =
    let n = r.watches.next_channel in
    let first = lookup-insert r.watches.channels a.name b.name n in
    let second = lookup-insert (insert r.watches.channels a.name n) b.name a.name (n + 1) in
    let same : text_eq a.name b.name ≡ true = rw e (text_eq_refl b.name) in
    let back : text_eq b.name a.name ≡ true = rw e (text_eq_refl b.name) in
    (rw (first, same) (ground arith), second ∙ rw back)

-- What a run that finishes has behind it, on the resource that the checks left.
abbrev pub Finished :
    {W : Type 0} → Parts W → OperatorConfig → Csm → Reconciler W → Watches → Type 0
Finished parts op cr r after =
    ((is_being_deleted cr ≡ true) × ((delete_csm parts cr r).0 ≡ ok tt))
    ⊎ ((is_being_deleted cr ≡ false) × IsDone parts op cr r after)

-- The reconcile behind the defaults.
abbrev checked_later : {W : Type 0} → Parts W → OperatorConfig → Csm → Exec (Reconciler W) Outcome
checked_later parts op cr =
    on_world (attempt (pre_checks parts op cr)) >>= λ result. checked parts false op cr result
