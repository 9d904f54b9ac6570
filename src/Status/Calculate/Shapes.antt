-- ===== src/Status/Calculate/Shapes.antt =====
-- The shape of what `calculateState` concludes: its status fits its flag.
use csm_operator.Prelude.{
  Bool, true, false, ◌&&◌, Option, List, [], ◌≡◌, refl, arith, if◌then◌else◌, Result, ok, err, Err,
  Bool-cases, inl, inr, ◌∷◌, ok_or, ap, subst,
}
use csm_operator.Prelude.Text.{Text, text_eq}
use csm_operator.Files.{OperatorConfig}
use csm_operator.Exec.{pure, >>=-ok}
use csm_operator.Csm.{Csm, Module, PodStatus, Status, succeeded, failed_state}
use csm_operator.Cluster.{Client}
use csm_operator.Status.Calculate.{
  module_running, Outside, with_status, Calculated, modules_running, controller_pods, Nodes,
  nodes_of_report, node_pods, record_server, conclude, conclude_modules, counted, calculate_state,
}

abbrev pub state_of : Bool → Text
state_of b = if b then succeeded else failed_state

-- The status `t` has the state that goes with the flag, and the pods of `s`.
pub record Fits (s : Status) (b : Bool) (t : Status) : Type 0 where
  pub state : t.state ≡ state_of b
  pub controller : t.controller_status ≡ s.controller_status
  pub nodes : t.node_status ≡ s.node_status

failed_fits : (s : Status) → Fits s false (record s { state = failed_state })
failed_fits s = record { state = refl; controller = refl; nodes = refl }

fits_ok :
    (s : Status) {t t' : Status} {b b' : Bool}
    → ◌≡◌ {A = Result (Status × Bool)} (ok (t, b)) (ok (t', b'))
    → Fits s b t
    → Fits s b' t'
fits_ok s {t} {t'} {b} {b'} p f =
    let q : ◌≡◌ {A = Status × Bool} (t, b) (t', b') = ap (ok_or (t, b)) p in
    subst (λ x. Fits s x.1 x.0) q f

modules_running-Fits :
    {W : Type 0} (api : Client W) (cr : Csm) (op : OperatorConfig) (s : Status) (ms : List Module)
    (w : W) {t : Status} {b : Bool}
    → s.state ≡ succeeded
    → (modules_running api cr op s ms w).0 ≡ ok (t, b)
    → Fits s b t
unfolding modules_running pure
modules_running-Fits api cr op s [] w {t} {b} h r =
    let p : ◌≡◌ {A = Result (Status × Bool)} (ok (s, true)) (ok (t, b)) = r in
    fits_ok s p (record { state = h; controller = refl; nodes = refl })
modules_running-Fits api cr op s (m ∷ ms) w {t} {b} h r =
    let (b', first, rest) = >>=-ok (module_running api cr op m) _ w r in
    elim (Bool-cases b') [
      | inl e ↦ modules_running-Fits api cr op s ms _ h (rw e at rest)
      | inr e ↦
          let p : ◌≡◌ {A = Result (Status × Bool)} (ok (record s { state = failed_state }, false))
              (ok (t, b)) =
            rw e at rest in
          fits_ok s p (failed_fits s)
    ]

-- What holds of a result that was concluded from the status `s`.
pub record Concludes (cr : Csm) (s : Status) (c : Calculated) : Type 0 where
  pub fits : Fits s c.running c.csm.status
  pub frame : c.csm ≡ with_status cr c.csm.status

pub conclude-Concludes :
    {W : Type 0} (out : Outside W) (cr : Csm) (s t : Status) (e : Option Err) (b : Bool)
    → Fits s b t
    → Concludes cr s (conclude out cr t e b)
unfolding conclude record_server
conclude-Concludes out cr s t e b h = record {
  fits = record {
    state = ground (arith, h.state);
    controller = ground (arith, h.controller);
    nodes = ground (arith, h.nodes);
  };
  frame = ground arith;
}

-- The shape of a result: it was concluded, and running only behind good counts.
pub record Shape (cr : Csm) (s : Status) (good : Bool) (c : Calculated) : Type 0 where
  pub concludes : Concludes cr s c
  pub counts : c.running ≡ true → good ≡ true

conclude_modules-Concludes :
    {W : Type 0} (out : Outside W) (cr : Csm) (s : Status) (e : Option Err)
    (p : Result (Status × Bool) × W) (c : Calculated)
    → ((t : Status) (b : Bool) → p.0 ≡ ok (t, b) → Fits s b t)
    → (conclude_modules out cr e p).0 ≡ ok c
    → Concludes cr s c
unfolding conclude_modules
conclude_modules-Concludes out cr s e (err x, w) c k h = cc
conclude_modules-Concludes out cr s e (ok (t, b), w) c k h =
    let p : conclude out cr t e b ≡ c = cc in
    rw (← p) (conclude-Concludes out cr s t e b (k t b refl))

concluded_false :
    {W : Type 0} (out : Outside W) (cr : Csm) (s : Status) (e : Option Err) (good : Bool)
    (c : Calculated)
    → conclude out cr (record s { state = failed_state }) e false ≡ c
    → Shape cr s good c
concluded_false out cr s e good c p = record {
  concludes = rw (← p) (conclude-Concludes out cr s _ e false (failed_fits s));
  counts = rw (← p) (unfold conclude in λ h. cc);
}

-- The two reports that the conclusion rests on.
module _ {W : Type 0} (out : Outside W) (cr : Csm) (op : OperatorConfig) (o : Option PodStatus)
    (w : W) where
  unfoldable pub controller_report : PodStatus × W
  controller_report = controller_pods out.api cr o w

  unfoldable pub nodes_report : Nodes × W
  nodes_report = node_pods out.api cr (record cr.status { state = succeeded }) controller_report.1

  unfoldable pub counts_good : Bool
  counts_good =
      text_eq controller_report.0.desired controller_report.0.available && nodes_report.0.good

  pub reported : Status
  reported = counted nodes_report.0.status controller_report.0

  reported-state : reported.state ≡ succeeded
  unfolding reported nodes_report node_pods nodes_of_report
  reported-state = ground arith

  pub calculate_state-Shape :
      (c : Calculated) → (calculate_state out cr op o w).0 ≡ ok c → Shape cr reported counts_good c
  unfolding calculate_state controller_report nodes_report reported counts_good
  calculate_state-Shape c h = elim (Bool-cases counts_good) [
    | inl good ↦ record {
      concludes =
          conclude_modules-Concludes out cr reported nodes_report.0.node_error
            (modules_running out.api cr op reported cr.spec.modules nodes_report.1) c
            (λ t b r.
              modules_running-Fits out.api cr op reported cr.spec.modules nodes_report.1
                reported-state r)
            (rw good at h);
      counts = λ _. good;
    }
    | inr bad ↦
        let p : ok (
              conclude out cr (record reported { state = failed_state }) nodes_report.0.node_error
                false)
            ≡ ok c =
          rw bad at h in
        concluded_false out cr reported nodes_report.0.node_error counts_good c (cc)
  ]
