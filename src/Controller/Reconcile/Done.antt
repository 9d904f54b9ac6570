-- ===== src/Controller/Reconcile/Done.antt =====
-- What a reconcile that finishes has done.
use csm_operator.Prelude.{Bool, true, false, none, ◌≡◌, Result, ok, err}
use csm_operator.Exec.{Exec}
use csm_operator.Csm.{Csm, succeeded}
use csm_operator.Files.{OperatorConfig}
use csm_operator.Watches.{Watches, start_watch}
use csm_operator.Status.Calculate.{handle_success, update_status}
use csm_operator.Status.Calculate.Updates.{Accepted}
use csm_operator.Controller.{Parts, Reconciler}
use csm_operator.Controller.Reconcile.{Outcome, finished, ensure_finalizer, record_version}

-- The run of `install` on a resource that was completed, call by call, each in the world that the one
-- before has left: the finalizer, the version, `HandleSuccess` and SyncCSM ended without an error, the
-- last on the resource that `HandleSuccess` gave; the status was updated behind them; the server has
-- accepted the status of that resource, its state is "Succeeded", and its informers were started.
pub record IsDone {W : Type 0} (parts : Parts W) (op : OperatorConfig) (cr : Csm)
    (before : Reconciler W) (after : Watches) : Type 0 where
  pub finalized : Csm
  pub versioned : Csm
  pub synced : Csm
  pub written : Csm
  pub w1 : W
  pub w2 : W
  pub w3 : W
  pub w4 : W
  pub ensured : ensure_finalizer parts.outside.api cr before.world ≡ (ok finalized, w1)
  pub recorded : record_version parts.outside.api finalized op w1 ≡ (ok versioned, w2)
  pub handled : handle_success parts.outside false versioned op w2 ≡ (ok (synced, false), w3)
  pub sync_ok : parts.sync_csm synced w3 ≡ (ok tt, w4)
  pub updated : (update_status parts.outside synced op none w4).0 ≡ ok (written, none)
  pub state : written.status.state ≡ succeeded
  pub accepted : Accepted parts.outside.api written
  pub watching : after ≡ start_watch written.name before.watches

abbrev flag : Result Outcome → Bool
flag (ok o) = o.requeue
flag (err e) = true

module _ {W : Type 0} (parts : Parts W) (G : Watches → Type 0) where
  -- A run that finishes ends with such informers.
  abbrev Ends : Result Outcome × Reconciler W → Type 0
  Ends o = o.0 ≡ ok finished → G o.1.watches
