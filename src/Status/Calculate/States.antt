-- ===== src/Status/Calculate/States.antt =====
-- What `calculateState` concludes.
use csm_operator.Prelude.{
  ◌⊎◌, ℕ, true, false, ◌&&◌, Option, none, List, [], ◌++◌, ◌≡◌, refl, ◌∙◌, arith, if◌then◌else◌,
  Result, ok, err, Err, Bool-cases, inl, inr, subst, ◌≤◌, &&-left, &&-right,
}
use csm_operator.Prelude.Text.{is_empty, codes, text_eq, text_eq_iff}
use csm_operator.Prelude.Decimal.{max_uint64, text_eq-format_nat, format_nat, format_nat-ne-nil}
use csm_operator.Files.{OperatorConfig}
use csm_operator.Exec.{◌>>=◌, pure}
use csm_operator.Csm.{
  Csm, cosi, PodStatus, Status, succeeded, failed_state, get_controller_name, get_node_name,
}
use csm_operator.Cluster.{Deployment, DaemonSet, Pod, Client}
use csm_operator.Status.Pods.Counts.{count, report_pods-counts}
use csm_operator.Status.Pods.{
  is_running, is_authorization_proxy_server, deployment_status, empty_status, get_deployment_status,
  node_report, report_pods, report_daemon_set, get_daemon_set_status,
}
use csm_operator.Status.Calculate.{
  Outside, with_status, Calculated, modules_running, controller_pods, has_nodes, nodes_of_report,
  node_pods, conclude, conclude_modules, counted, calculate_state,
}
use csm_operator.Status.Calculate.Shapes.{
  conclude-Concludes, controller_report, nodes_report, counts_good, calculate_state-Shape,
}

-- Where the daemon set's pods are good, it and its pods were read, and as many of them run and are
-- ready as it wants: a report behind an error has no available count.
report_pods_good :
    (desired : ℕ) (r : Result (List Pod))
    → text_eq (format_nat (report_pods desired r).expected) (report_pods desired r).pods.available
      ≡ true
    → (pods : List Pod) × (r ≡ ok pods) × (format_nat desired ≡ format_nat (count is_running pods))
unfolding report_pods node_report
report_pods_good desired (err e) h = absurd (format_nat-ne-nil desired ((text_eq_iff _ _).0 h))
report_pods_good desired (ok pods) h =
    (pods, refl, (text_eq_iff _ _).0 h ∙ (report_pods-counts desired pods).0)

-- The daemon set in the world `w` and its pods in the next one, of which as many run and are ready as
-- are wanted.
abbrev pub AllRun : {W : Type 0} → Client W → Csm → W → Type 0
AllRun api cr w =
    let (r, w') = api.get_daemon_set cr.namespace (get_node_name cr) w in
    (ds : DaemonSet) × (pods : List Pod) × (r ≡ ok ds)
    × ((api.list_pods cr.namespace (cr.name ++ codes "-node") w').0 ≡ ok pods)
    × (format_nat ds.desired_number_scheduled ≡ format_nat (count is_running pods))

report_daemon_set_good :
    {W : Type 0} (api : Client W) (cr : Csm) (r : Result DaemonSet) (w : W)
    → (let q = (report_daemon_set api cr r w).0 in
        text_eq (format_nat q.expected) q.pods.available ≡ true)
    → (ds : DaemonSet) × (pods : List Pod) × (r ≡ ok ds)
      × ((api.list_pods cr.namespace (cr.name ++ codes "-node") w).0 ≡ ok pods)
      × (format_nat ds.desired_number_scheduled ≡ format_nat (count is_running pods))
unfolding report_daemon_set
report_daemon_set_good api cr (err e) w h = absurd (format_nat-ne-nil 0 ((text_eq_iff _ _).0 h))
report_daemon_set_good api cr (ok ds) w h =
    let (pods, listed, same) = report_pods_good ds.desired_number_scheduled _ h in
    (ds, pods, refl, listed, same)

node_pods_good :
    {W : Type 0} (api : Client W) (cr : Csm) (s : Status) (w : W)
    → has_nodes cr ≡ true
    → (node_pods api cr s w).0.good ≡ true
    → AllRun api cr w
unfolding node_pods nodes_of_report get_daemon_set_status
node_pods_good api cr s w n g =
    let (ds, w') = api.get_daemon_set cr.namespace (get_node_name cr) w in
    report_daemon_set_good api cr ds w' (rw n at g)

-- Whatever the cluster answers, on every path with a result: the state that was set says whether the
-- installation runs, and nothing but the status of the resource is changed.
pub calculate_state-state :
    {W : Type 0} (out : Outside W) (cr : Csm) (op : OperatorConfig) (o : Option PodStatus) (w : W)
    (c : Calculated)
    → (calculate_state out cr op o w).0 ≡ ok c
    → (c.csm.status.state ≡ (if c.running then succeeded else failed_state))
      × (c.csm ≡ with_status cr c.csm.status)
calculate_state-state out cr op o w c h =
    let shape = calculate_state-Shape out cr op o w c h in
    (shape.concludes.fits.state, shape.concludes.frame)

controller_pods_read :
    {W : Type 0} (api : Client W) (cr : Csm) (w : W) (d : Deployment)
    → is_empty cr.name ≡ false
    → is_authorization_proxy_server cr ≡ false
    → (api.get_deployment cr.namespace (get_controller_name cr) w).0 ≡ ok d
    → controller_pods api cr none w
      ≡ (deployment_status d, (api.get_deployment cr.namespace (get_controller_name cr) w).1)
unfolding controller_pods get_deployment_status ◌>>=◌ pure
controller_pods_read api cr w d n p h = rw (n, p, h) refl

-- Of a named resource without an authorization server, whose controller's deployment can be read with
-- counts below 2 ^ 64: if the installation is said to run, the deployment has as many pods available as
-- replicas, and, but for a Cosi driver, the daemon set and its pods can be read behind it, and the
-- number of pods that run and are ready prints like the number that it wants.
pub calculate_state-running :
    {W : Type 0} (out : Outside W) (cr : Csm) (op : OperatorConfig) (w : W) (d : Deployment)
    (c : Calculated)
    → is_empty cr.name ≡ false
    → is_authorization_proxy_server cr ≡ false
    → (out.api.get_deployment cr.namespace (get_controller_name cr) w).0 ≡ ok d
    → d.replicas ≤ max_uint64
    → d.available_replicas ≤ max_uint64
    → (calculate_state out cr op none w).0 ≡ ok c
    → c.running ≡ true
    → (d.available_replicas ≡ d.replicas)
      × ((text_eq cr.spec.driver.csi_driver_type cosi ≡ true)
          ⊎ AllRun out.api cr (out.api.get_deployment cr.namespace (get_controller_name cr) w).1)
unfolding counts_good nodes_report controller_report deployment_status has_nodes
calculate_state-running {W} out cr op w d c n p g hr ha h r =
    let good = (calculate_state-Shape out cr op none w c h).counts r in
    let s = record cr.status { state = succeeded } in
    let w1 = (out.api.get_deployment cr.namespace (get_controller_name cr) w).1 in
    let nodes = (node_pods out.api cr s w1).0 in
    let counted_text = text_eq (format_nat d.replicas) (format_nat d.available_replicas) in
    let both : (counted_text && nodes.good) ≡ true =
      subst
        (λ (q : PodStatus × W).
          (text_eq q.0.desired q.0.available && (node_pods out.api cr s q.1).0.good) ≡ true)
        (controller_pods_read out.api cr w d n p g) good in
    (
      ground (
        arith,
        text_eq-format_nat d.replicas d.available_replicas hr ha,
        &&-left counted_text nodes.good both,
      ),
      elim (Bool-cases (text_eq cr.spec.driver.csi_driver_type cosi)) [
        | inl e ↦ inl e
        | inr e ↦
            inr (
              node_pods_good out.api cr s w1 (ground arith) (&&-right counted_text nodes.good both))
      ],
    )

controller_pods_failed :
    {W : Type 0} (api : Client W) (cr : Csm) (w : W) (e : Err)
    → (api.get_deployment cr.namespace (get_controller_name cr) w).0 ≡ err e
    → (controller_pods api cr none w).0 ≡ empty_status
unfolding controller_pods get_deployment_status ◌>>=◌ pure
controller_pods_failed api cr w e h = ground arith

-- A resource without modules and without a daemon set, such as one of a Cosi driver, whose
-- controller's deployment cannot be read, for whatever reason, counts as running, with the state
-- "Succeeded".
pub calculate_state_without_deployment :
    {W : Type 0} (out : Outside W) (cr : Csm) (op : OperatorConfig) (w : W) (e : Err)
    → (out.api.get_deployment cr.namespace (get_controller_name cr) w).0 ≡ err e
    → has_nodes cr ≡ false
    → cr.spec.modules ≡ []
    → (c : Calculated) × ((calculate_state out cr op none w).0 ≡ ok c)
      × (c.running ≡ true)
      × (c.csm.status.state ≡ succeeded)
unfolding calculate_state node_pods modules_running conclude_modules pure text_eq
calculate_state_without_deployment out cr op w e h n m =
    let s = counted (record cr.status { state = succeeded }) empty_status in
    let c = conclude out cr s none true in
    (
      c,
      rw (controller_pods_failed out.api cr w e h, n, m),
      unfold conclude in refl,
      (conclude-Concludes out cr s s none true
            (record { state = refl; controller = refl; nodes = refl })).fits.state
          ∙ unfold conclude in refl,
    )
