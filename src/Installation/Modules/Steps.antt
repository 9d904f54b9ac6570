-- ===== src/Installation/Modules/Steps.antt =====
-- The steps of `reconcileObservability` and `reconcileAuthorization`.
use csm_operator.Prelude.{
  Bool, true, false, List, [], ◌∷◌, ◌≡◌, refl, arith, if◌then◌else◌, ltb, any, All, ok, Err, ◌≤◌,
  wrap-eq-ok,
}
use csm_operator.Prelude.Text.{Text, codes, text_eq}
use csm_operator.Exec.{Exec, ◌>>=◌, >>=-ok, pure, raise, lift, wrapping}
use csm_operator.Csm.{Csm, observability}
use csm_operator.Csm.Modules.{is_module_component_enabled}
use csm_operator.Cluster.{Deployment}
use csm_operator.Files.{OperatorConfig}
use csm_operator.Images.{VersionSpec}
use csm_operator.Installation.{Components}
use csm_operator.Installation.Modules.{
  cert_manager_component, reconcile_component, reconcile_components, await_webhook, webhook_step,
  reconcile_observability, components_of, reconcile_ingress_controller, reconcile_authorization,
  if_component, otel_collector_name, topology_name, metrics_power_scale_name,
  metrics_power_flex_name, metrics_power_max_name, metrics_power_store_name,
}

-- The components that `reconcileObservability` knows.
abbrev pub observability_names : List Text
observability_names =
    otel_collector_name ∷ cert_manager_component ∷ topology_name ∷ metrics_power_scale_name
    ∷ metrics_power_flex_name ∷ metrics_power_max_name ∷ metrics_power_store_name ∷ []

abbrev pub IsSupported : Text → Type 0
IsSupported comp = any (text_eq comp) observability_names ≡ true

-- The webhook of cert-manager has a replica that is ready, in some world.
abbrev pub WebhookWasReady : {W : Type 0} → Components W → Csm → Type 0
WebhookWasReady {W} parts cr =
    (w : W) × (d : Deployment) × ((parts.api.get_deployment cr.namespace
        (codes "cert-manager-webhook") w).0
      ≡ ok d)
    × (1 ≤ d.ready_replicas)

module _ {W : Type 0} (parts : Components W) (op : OperatorConfig) where
  component-IsSupported :
      (is_deleting : Bool) (cr : Csm) (matched : VersionSpec) (version comp : Text) (w : W)
      → (reconcile_component parts op is_deleting cr matched version comp w).0 ≡ ok tt
      → IsSupported comp
  unfolding reconcile_component raise any
  component-IsSupported is_deleting cr matched version comp w h = ground arith

  components-IsSupported :
      (is_deleting : Bool) (cr : Csm) (matched : VersionSpec) (version : Text) (comps : List Text)
      (w : W)
      → (reconcile_components parts op is_deleting cr matched version comps w).0 ≡ ok tt
      → All IsSupported comps
  unfolding reconcile_components
  components-IsSupported is_deleting cr matched version [] w h = tt
  components-IsSupported is_deleting cr matched version (comp ∷ comps) w h =
      let (_, first, rest) =
        >>=-ok (reconcile_component parts op is_deleting cr matched version comp)
          (λ _. reconcile_components parts op is_deleting cr matched version comps) w h in
      (
        component-IsSupported is_deleting cr matched version comp w first,
        components-IsSupported is_deleting cr matched version comps _ rest,
      )

  webhook-ready :
      (cr : Csm) (w : W) → (await_webhook parts op cr w).0 ≡ ok tt → WebhookWasReady parts cr
  unfolding await_webhook raise pure
  webhook-ready cr w h =
      let (d, found, rest) =
        >>=-ok
          (wrapping (codes "cert-manager-webhook deployment not found, will retry")
            (parts.api.get_deployment cr.namespace (codes "cert-manager-webhook")))
          (λ d.
            if ltb d.ready_replicas 1
            then raise (Err.message (codes "cert-manager-webhook is not ready yet"))
            else pure tt)
          w h in
      (w, d, wrap-eq-ok _ _ found, ground arith)

  enabled-ready :
      (is_deleting : Bool) (cr : Csm) (w : W)
      → (webhook_step parts op is_deleting cr w).0 ≡ ok tt
      → is_deleting ≡ false
      → is_module_component_enabled cr observability cert_manager_component ≡ ok true
      → WebhookWasReady parts cr
  unfolding webhook_step lift ◌>>=◌
  enabled-ready true cr w h d e = cc
  enabled-ready false cr w h d e = webhook-ready cr w (ground (arith, h, e))

  -- What the success of the reconcile of observability says: the components that it has gone through,
  -- those it is given or all that are enabled, are ones that it knows; and where it is no deletion
  -- and cert-manager is enabled, the webhook of cert-manager was read with a ready replica.
  pub reconcile_observability-ok :
      (is_deleting : Bool) (cr : Csm) (components : List Text) (matched : VersionSpec) (w : W)
      → (reconcile_observability parts op is_deleting cr components matched w).0 ≡ ok tt
      → ((comps : List Text) × (components_of parts op cr components ≡ ok comps)
          × All IsSupported comps)
        × (is_deleting ≡ false
            → is_module_component_enabled cr observability cert_manager_component ≡ ok true
            → WebhookWasReady parts cr)
  unfolding reconcile_observability lift
  reconcile_observability-ok is_deleting cr components matched w h =
      let (version, _, h1) = >>=-ok _ _ w h in
      let (comps, found, h2) = >>=-ok _ _ w h1 in
      let (_, h3, _) = >>=-ok _ _ w h2 in
      let (_, first, hook) = >>=-ok _ _ w h3 in
      (
        (comps, found, components-IsSupported is_deleting cr matched version comps w first),
        enabled-ready is_deleting cr _ hook,
      )

-- The same program, with other functions for the ingress and gateway controllers.
abbrev pub other_controllers :
    {W : Type 0}
    → Components W
    → (Bool → Csm → Exec W (Unit {0}))
    → (Bool → Csm → Exec W (Unit {0}))
    → (Csm → Exec W (Unit {0}))
    → Components W
other_controllers parts nginx gateway cleanup = record parts {
  nginx_ingress_controller = nginx;
  gateway_controller = gateway;
  nginx_ingress_controller_cleanup = cleanup;
}

-- On OpenShift the reconcile of an authorization server does not depend on what the functions for the
-- ingress and gateway controllers do: it calls none of them.
pub reconcile_authorization-openshift :
    {W : Type 0} (parts : Components W) (op : OperatorConfig)
    (nginx gateway : Bool → Csm → Exec W (Unit {0})) (cleanup : Csm → Exec W (Unit {0}))
    → parts.is_open_shift ≡ true
    → (is_deleting : Bool) (cr : Csm) (matched : VersionSpec) (w : W)
    → reconcile_authorization
        (other_controllers parts nginx gateway cleanup)
        op
        is_deleting
        cr
        matched
        w
      ≡ reconcile_authorization parts op is_deleting cr matched w
unfolding reconcile_authorization reconcile_ingress_controller if_component
reconcile_authorization-openshift parts op nginx gateway cleanup o is_deleting cr matched w =
    rw (o) refl
