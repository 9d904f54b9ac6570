-- ===== src/Status/Calculate/Updates.antt =====
-- What is written to the cluster, and what a reconcile is told.
use csm_operator.Prelude.{
  Bool, true, false, not, ◌&&◌, Option, none, ◌≡◌, ◌⊎◌, refl, ap, subst, ◌∙◌, arith, if◌then◌else◌,
  Result, ok, err, Err, is_ok, inl, inr,
}
use csm_operator.Prelude.Text.{Text, text_eq}
use csm_operator.Files.{OperatorConfig}
use csm_operator.Exec.{Exec, >>=-ok, pure}
use csm_operator.Csm.{Csm, PodStatus, succeeded, failed_state}
use csm_operator.Cluster.{Client}
use csm_operator.Status.Calculate.{
  Outside, with_status, Calculated, calculate_state, record_successful, write_status, after_write,
  finish_update, update_status, state_after, handle_success,
}
use csm_operator.Status.Calculate.States.{calculate_state-state}

-- What client-go documents of `RetryOnConflict`: its result is that of a run of the function.
abbrev pub RetryRuns : {W : Type 0} → Outside W → Type 0
RetryRuns {W} out = (f : Exec W (Unit {0})) (w : W) → (w' : W) × (out.retry_on_conflict f w ≡ f w')

-- The status of `cr` was accepted by the server, on the resource that it held.
abbrev pub Accepted : {W : Type 0} → Client W → Csm → Type 0
Accepted {W} api cr =
    (w : W) × (stored : Csm) × (w' : W) × ((api.get_csm cr.namespace cr.name w).0 ≡ ok stored)
    × (is_ok (api.update_csm_status (with_status stored cr.status) w').0 ≡ true)

write_status-Accepted :
    {W : Type 0} (api : Client W) (cr : Csm) (w : W)
    → (write_status api cr w).0 ≡ ok tt
    → Accepted api cr
unfolding write_status
write_status-Accepted api cr w h =
    let (stored, got, rest) = >>=-ok (api.get_csm cr.namespace cr.name) _ w h in
    let w' = (api.get_csm cr.namespace cr.name w).1 in
    let (answer, accepted, done) =
      >>=-ok (api.update_csm_status (with_status stored cr.status)) (λ _. pure tt) w' rest in
    (w, stored, w', got, rw accepted)

is_none-after_write :
    (c : Calculated) (r : Result (Unit {0}))
    → after_write c r ≡ none
    → (c.running ≡ true) × (r ≡ ok tt)
unfolding after_write
is_none-after_write c (err e) h = cc
is_none-after_write c (ok t) h = (ground arith, refl)

finish_update-none :
    {W : Type 0} (out : Outside W)
    → RetryRuns out
    → (c : Calculated) (w : W) (cr' : Csm) → (finish_update out (ok c, w)).0 ≡ ok (cr', none)
    → (c.running ≡ true) × (cr' ≡ record_successful c.csm c.running) × Accepted out.api cr'
unfolding finish_update
finish_update-none out law c w cr' h =
    let cr = record_successful c.csm c.running in
    let same : cr' ≡ cr = cc in
    let last : after_write c (out.retry_on_conflict (write_status out.api cr) w).0 ≡ none = cc in
    let (running, wrote) = is_none-after_write c _ last in
    let (w', run) = law (write_status out.api cr) w in
    (running, same, rw same (write_status-Accepted out.api cr w' (rw run at wrote)))

record_successful-state :
    (cr : Csm) (b : Bool) → (record_successful cr b).status.state ≡ cr.status.state
unfolding record_successful
record_successful-state cr b = ground arith

update_result :
    {W : Type 0} (out : Outside W) (p : Result Calculated × W) (cr' : Csm) (e : Option Err)
    → (finish_update out p).0 ≡ ok (cr', e)
    → (c : Calculated) × (p.0 ≡ ok c)
unfolding finish_update
update_result out (err x, w) cr' e h = cc
update_result out (ok c, w) cr' e h = (c, refl)

-- If client-go's retry gives the result of a run, an update of the status that returns no error has
-- set the state "Succeeded", and the server has accepted the resulting status on the resource that
-- it held.
pub update_status-Accepted :
    {W : Type 0} (out : Outside W) (cr cr' : Csm) (op : OperatorConfig) (o : Option PodStatus)
    (w : W)
    → RetryRuns out
    → (update_status out cr op o w).0 ≡ ok (cr', none)
    → (cr'.status.state ≡ succeeded) × Accepted out.api cr'
unfolding update_status
update_status-Accepted out cr cr' op o w law h =
    let p = calculate_state out cr op o w in
    let (c, got) = update_result out p cr' none h in
    let (running, same, accepted) =
      finish_update-none out law c p.1 cr'
        (subst (λ r. (finish_update out (r, p.1)).0 ≡ ok (cr', none)) got h) in
    let state : cr'.status.state ≡ (if c.running then succeeded else failed_state) =
      ap (λ (x : Csm). x.status.state) same
      ∙ record_successful-state c.csm c.running
      ∙ (calculate_state-state out cr op o w c got).0 in
    (state ∙ rw running, accepted)

state_after-state :
    (c : Calculated)
    → c.csm.status.state ≡ (if c.running then succeeded else failed_state)
    → (state_after c).status.state ≡ (if c.running then succeeded else failed_state)
unfolding state_after
state_after-state c h = ground arith

-- The flag can be read off the state.
flag_of_state :
    (running b : Bool) (t : Text)
    → t ≡ (if running then succeeded else failed_state)
    → (not running && not b ≡ (text_eq t failed_state && not b))
      × ((t ≡ succeeded) ⊎ (t ≡ failed_state))
unfolding text_eq
flag_of_state true b t h = (rw h, inl h)
flag_of_state false b t h = (rw h, inr h)

-- Where `HandleSuccess` gives a result, it puts the request back exactly when the state that it
-- leaves is "Failed" and the unit tests do not run; the state is "Succeeded" or "Failed".
pub handle_success-requeue :
    {W : Type 0} (out : Outside W) (unit_test : Bool) (cr cr' : Csm) (op : OperatorConfig) (w : W)
    (requeue : Bool)
    → (handle_success out unit_test cr op w).0 ≡ ok (cr', requeue)
    → (requeue ≡ (text_eq cr'.status.state failed_state && not unit_test))
      × ((cr'.status.state ≡ succeeded) ⊎ (cr'.status.state ≡ failed_state))
unfolding handle_success
handle_success-requeue out u cr cr' op w requeue h =
    let (c, got, rest) = >>=-ok (calculate_state out cr op none) _ w h in
    let done : ◌≡◌ {A = Result (Csm × Bool)} (ok (state_after c, not c.running && not u))
        (ok (cr', requeue)) =
      unfold pure in rest in
    let same : state_after c ≡ cr' = cc in
    let flag : (not c.running && not u) ≡ requeue = cc in
    let state = state_after-state c (calculate_state-state out cr op none w c got).0 in
    rw (← same, ← flag) (flag_of_state c.running u (state_after c).status.state state)
