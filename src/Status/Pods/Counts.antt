-- ===== src/Status/Pods/Counts.antt =====
-- The counts of the node pods against a count over the list.
use csm_operator.Prelude.{
  ℕ, ◌+◌, ◌≤◌, Bool, true, false, List, [], ◌∷◌, ◌≡◌, refl, ap, arith, if◌then◌else◌, ltb, ◌==◌,
  length, is_some, ok,
}
use csm_operator.Prelude.Text.{Text, codes, text_eq, text_eq_iff}
use csm_operator.Prelude.Decimal.{max_uint64, format_nat, text_eq-format_nat}
use csm_operator.Cluster.{Pod}
use csm_operator.Status.Pods.{
  is_pending, is_running, Tally, no_tally, tally_pod, tally_pods, node_report, report_pods,
}

abbrev pub count : (Pod → Bool) → List Pod → ℕ
count p [] = 0
count p (x ∷ xs) = if p x then count p xs + 1 else count p xs

phases_differ :
    (t : Text) → text_eq t (codes "Pending") ≡ true → text_eq t (codes "Running") ≡ false
phases_differ t h = rw ((text_eq_iff t (codes "Pending")).0 h) (unfold text_eq in refl)

-- No pod is counted twice.
exclusive : (p : Pod) → is_pending p ≡ true → is_running p ≡ false
unfolding is_pending is_running
exclusive p h = rw (phases_differ p.phase h)

tally_pods-counts :
    (ps : List Pod) (t : Tally)
    → ((tally_pods ps t).running_count ≡ t.running_count + count is_running ps)
      × ((tally_pods ps t).failed_count ≡ t.failed_count + count is_pending ps)
unfolding tally_pods tally_pod
tally_pods-counts [] t = omega arith
tally_pods-counts (p ∷ ps) t = ground (arith, tally_pods-counts ps (tally_pod p t))

count_both : (ps : List Pod) → count is_running ps + count is_pending ps ≤ length ps
count_both [] = omega arith
count_both (p ∷ ps) = ground (arith, count_both ps, exclusive p)

-- The report on the node pods that the server has listed: "Available" is the number of running and
-- ready pods, "Failed" that of the pending ones, together they are no more than the pods listed, and
-- there is an error exactly when a pod is pending.
pub report_pods-counts :
    (desired : ℕ) (ps : List Pod)
    → let r = report_pods desired (ok ps) in
      (r.pods.available ≡ format_nat (count is_running ps))
      × (r.pods.failed ≡ format_nat (count is_pending ps))
      × (count is_running ps + count is_pending ps ≤ length ps)
      × (is_some r.error ≡ ltb 0 (count is_pending ps))
unfolding report_pods node_report
report_pods-counts desired ps =
    let (running, failed) = tally_pods-counts ps no_tally in
    (ap format_nat (omega arith), ap format_nat (omega arith), count_both ps, ground arith)

-- Where the desired number and the number of pods fit into 64 bits, the daemon set counts as good
-- exactly when as many pods run and are ready as it wants.
pub node_good-counts :
    (desired : ℕ) (ps : List Pod)
    → desired ≤ max_uint64
    → length ps ≤ max_uint64
    → let r = report_pods desired (ok ps) in
      text_eq (format_nat r.expected) r.pods.available ≡ (desired == count is_running ps)
unfolding report_pods node_report
node_good-counts desired ps hd hp =
    let running : (tally_pods ps no_tally).running_count ≡ count is_running ps =
      omega (arith, tally_pods-counts ps no_tally) in
    rw running (text_eq-format_nat desired (count is_running ps) hd (omega (arith, count_both ps)))
