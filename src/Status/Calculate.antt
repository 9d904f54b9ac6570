-- ===== src/Status/Calculate.antt =====
-- The state of an installation and its bookkeeping in the resource: `calculateState`,
-- `UpdateStatus`, `HandleValidationError` and `HandleSuccess`. Every caller passes the resource's own
-- status for `newStatus` (and for `oldStatus`), a pointer into the resource, so the model keeps one
-- status, that of the resource; `SetStatus`, which copies it onto itself, is then the identity.
pub mod Shapes
pub mod States
pub mod Updates
use csm_operator.Prelude.{
  ℕ, Bool, true, false, not, ◌&&◌, ◌||◌, Option, none, some, List, [], ◌∷◌, if◌then◌else◌, get_or,
  is_some, Result, ok, err, Err, ok_or,
}
use csm_operator.Prelude.Text.{Text, codes, text_eq, is_empty}
use csm_operator.Prelude.Dict.{Dict, lookup, delete}
use csm_operator.Prelude.Decimal.{format_nat}
use csm_operator.Files.{OperatorConfig}
use csm_operator.Exec.{Exec, ◌>>=◌, ◌>>◌, pure, raise}
use csm_operator.Csm.{
  Module, Csm, PodStatus, Status, no_status, observability, authorization_server, cosi, succeeded,
  failed_state,
}
use csm_operator.Cluster.{Client}
use csm_operator.Status.Pods.{
  empty_status, is_authorization_proxy_server, get_deployment_status, NodeReport,
  get_daemon_set_status,
}
use csm_operator.Status.Checks.{observability_status_check, auth_proxy_status_check}

-- What the code takes from outside the repository: the client, `json.Marshal` on a resource, and
-- `retry.RetryOnConflict` of client-go with the default backoff.
pub record Outside (W : Type 0) : Type 0 where
  pub api : Client W
  pub marshal : Csm → Result Text
  pub retry_on_conflict : Exec W (Unit {0}) → Exec W (Unit {0})

abbrev pub with_status : Csm → Status → Csm
with_status cr s = record cr { status = s }

abbrev pub set_state : Csm → Text → Csm
set_state cr t = with_status cr (record cr.status { state = t })

-- The results of `calculateState`, beside the resource.
pub record Calculated : Type 0 where
  pub csm : Csm
  pub running : Bool
  pub error : Option Err

-- The check of a module's status; `none` where the map `checkModuleStatus` has no entry.
unfoldable pub module_check :
    {W : Type 0} → Client W → Csm → OperatorConfig → Text → Option (Exec W Bool)
module_check api cr op name =
    if text_eq name observability
    then some (observability_status_check api cr op)
    else if text_eq name authorization_server
    then some (auth_proxy_status_check api cr)
    else none

-- A check's error is logged and its flag, which is false then, is used; a panic is no error.
unfoldable pub settle : Result Bool → Result Bool
settle (ok b) = ok b
settle (err Err.panic) = err Err.panic
settle (err e) = ok false

-- A module that is disabled or has no check counts as running.
unfoldable pub module_running :
    {W : Type 0} → Client W → Csm → OperatorConfig → Module → Exec W Bool
module_running api cr op m w = elim (module_check api cr op m.name) [
  | none ↦ (ok true, w)
  | some check ↦ if m.enabled then (let (r, w') = check w in (settle r, w')) else (ok true, w)
]

-- The loop over the modules, from a status on: it ends with the first one that does not run, which
-- fails the state. The result is the status and the flag.
unfoldable pub modules_running :
    {W : Type 0} → Client W → Csm → OperatorConfig → Status → List Module → Exec W (Status × Bool)
modules_running api cr op s [] = pure (s, true)
modules_running api cr op s (m ∷ ms) =
    let rest = modules_running api cr op s ms in
    module_running api cr op m >>= λ b.
    if b then rest else pure (record s { state = failed_state }, false)

-- The status of the controller's pods, and the world then: of the event, or asked for. An error is
-- logged, and the empty status that stands beside it is used.
unfoldable pub controller_pods :
    {W : Type 0} → Client W → Csm → Option PodStatus → W → PodStatus × W
controller_pods api cr (some s) w = (s, w)
controller_pods api cr none w =
    let (r, w') = get_deployment_status api cr w in (ok_or empty_status r, w')

-- Drivers, but for Cosi, have a daemon set.
unfoldable pub has_nodes : Csm → Bool
has_nodes cr =
    not (is_empty cr.name)
    && not (is_authorization_proxy_server cr)
    && not (text_eq cr.spec.driver.csi_driver_type cosi)

-- nodeStatusGood, the error of the node pods, and the status with the node pods in it
pub record Nodes : Type 0 where
  pub good : Bool
  pub node_error : Option Err
  pub status : Status

unfoldable pub nodes_of_report : Status → NodeReport → Nodes
nodes_of_report s r = record {
  good = text_eq (format_nat r.expected) r.pods.available;
  node_error = r.error;
  status = record s { node_status = r.pods };
}

unfoldable pub node_pods : {W : Type 0} → Client W → Csm → Status → W → Nodes × W
node_pods api cr s w =
    if has_nodes cr
    then (let (r, w') = get_daemon_set_status api cr w in (nodes_of_report s r, w'))
    else (record { good = true; node_error = none; status = s }, w)

abbrev pub last_applied_key : Text
last_applied_key = codes "kubectl.kubernetes.io/last-applied-configuration"

-- copyCR
unfoldable pub bare_copy : Csm → Csm
bare_copy cr = record cr {
  annotations = elim cr.annotations [ none ↦ none | some m ↦ some (delete m last_applied_key) ];
  status = no_status;
}

-- An authorization server that has succeeded records its configuration, and an empty text where
-- that cannot be marshalled.
unfoldable pub record_server : {W : Type 0} → Outside W → Csm → Csm
record_server out cr =
    if is_authorization_proxy_server cr && text_eq cr.status.state succeeded
    then with_status cr
        (record cr.status { last_successful_configuration = ok_or [] (out.marshal (bare_copy cr)) })
    else cr

-- The end of `calculateState`, with the status and the flag that were reached.
unfoldable pub conclude : {W : Type 0} → Outside W → Csm → Status → Option Err → Bool → Calculated
conclude out cr s e running = record {
  csm = record_server out (with_status cr s);
  running = running;
  error = e;
}

unfoldable pub conclude_modules :
    {W : Type 0} → Outside W → Csm → Option Err → Result (Status × Bool) × W → Result Calculated × W
conclude_modules out cr e (err x, w) = (err x, w)
conclude_modules out cr e (ok (s, running), w) = (ok (conclude out cr s e running), w)

-- The status once the pods have been counted.
abbrev pub counted : Status → PodStatus → Status
counted s controller = record s { controller_status = controller }

-- The state is "Succeeded" at first. The result is an error only where a nil pointer ended the call. The optional status is
-- `deploymentStatusOverride`.
unfoldable pub calculate_state :
    {W : Type 0} → Outside W → Csm → OperatorConfig → Option PodStatus → Exec W Calculated
calculate_state out cr op override w =
    let (controller, w1) = controller_pods out.api cr override w in
    let (nodes, w2) = node_pods out.api cr (record cr.status { state = succeeded }) w1 in
    let s = counted nodes.status controller in
    if text_eq controller.desired controller.available && nodes.good
    then conclude_modules out cr nodes.node_error
        (modules_running out.api cr op s cr.spec.modules w2)
    else (ok (conclude out cr (record s { state = failed_state }) nodes.node_error false), w2)

abbrev pub previously_applied_key : Text
previously_applied_key = codes "storage.dell.com/PreviouslyAppliedConfiguration"

-- The annotation with the configuration, and an empty text where it is missing.
unfoldable pub previously_applied : Csm → Text
previously_applied cr = elim cr.annotations [
  | none ↦ []
  | some m ↦ get_or (lookup m previously_applied_key) []
]

-- A running driver whose controller has all its replicas records the configuration.
unfoldable pub record_successful : Csm → Bool → Csm
record_successful cr running =
    if text_eq cr.status.controller_status.desired (format_nat cr.spec.driver.replicas)
      && running
      && not (is_empty (previously_applied cr))
    then with_status cr (record cr.status { last_successful_configuration = previously_applied cr })
    else cr

-- The function that is retried: the stored resource gets the status.
unfoldable pub write_status : {W : Type 0} → Client W → Csm → Exec W (Unit {0})
write_status api cr = api.get_csm cr.namespace cr.name >>= λ stored.
    api.update_csm_status (with_status stored cr.status) >>= λ _. pure tt

unfoldable pub after_write : Calculated → Result (Unit {0}) → Option Err
after_write c (err e) = some e
after_write c (ok _) =
    if c.running
    then c.error
    else some (Err.message (codes "calculateState returned CSM not running"))

-- The resource, and the error that `UpdateStatus` returns.
unfoldable pub finish_update :
    {W : Type 0} → Outside W → Result Calculated × W → Result (Csm × Option Err) × W
finish_update out (err x, w) = (err x, w)
finish_update out (ok c, w) =
    let cr = record_successful c.csm c.running in
    let (r, w') = out.retry_on_conflict (write_status out.api cr) w in
    (ok (cr, after_write c r), w')

unfoldable pub update_status :
    {W : Type 0} → Outside W → Csm → OperatorConfig → Option PodStatus → Exec W (Csm × Option Err)
update_status out cr op override w = finish_update out (calculate_state out cr op override w)

-- A failed update of the status is logged; the error of the validation is returned, and the request
-- is not put back by the result.
unfoldable pub handle_validation_error : {W : Type 0} → Client W → Csm → W → Csm × W
handle_validation_error api cr w =
    let failed = set_state cr failed_state in
    let (r, w') = api.update_csm_status failed w in (ok_or failed r, w')

-- The state that `HandleSuccess` leaves: the error first, then the flag.
unfoldable pub state_after : Calculated → Csm
state_after c =
    if c.running
    then set_state c.csm succeeded
    else if is_some c.error
    then set_state c.csm failed_state
    else c.csm

-- The resource and `requeue.Requeue`. In a run of the unit tests nothing is put back.
unfoldable pub handle_success :
    {W : Type 0} → Outside W → Bool → Csm → OperatorConfig → Exec W (Csm × Bool)
handle_success out unit_test cr op =
    calculate_state out cr op none >>= λ c. pure (state_after c, not c.running && not unit_test)
