-- ===== src/Status/Checks/Ready.antt =====
-- What a check that passes says of the deployments, and which deployments it looks at.
use csm_operator.Prelude.{
  ◌↔◌, ℕ, Bool, true, false, List, [], ◌∷◌, ◌++◌, ◌==◌, ◌≡◌, refl, arith, ok, All, any, Bool-cases,
  inl, inr, sym, subst, ◌∙◌, Result, err, get_or, if◌then◌else◌, ◌&&◌, ◌||◌,
}
use csm_operator.Prelude.Text.{Text, codes, text_eq, text_eq_iff}
use csm_operator.Exec.{◌>>=◌, pure, lift}
use csm_operator.Csm.Modules.{deref}
use csm_operator.Prelude.Dict.{Dict}
use csm_operator.Csm.{ContainerTemplate, Csm, authorization_server}
use csm_operator.Cluster.{Deployment, Client}
use csm_operator.Status.Checks.{
  component_flag, components_of, check_fn, all_ready, use_gateway_api, ProxyFlags, proxy_flags,
  is_proxy_service, needs_cert_manager, needs_proxy, auth_proxy_status_check,
}

-- The deployments that the test names have all their replicas ready.
abbrev pub AllReady : (Text → Bool) → List Deployment → Type 0
AllReady needed = All (λ d. needed d.name ≡ true → d.ready_replicas ≡ d.spec_replicas)

pub all_ready-AllReady :
    (needed : Text → Bool) (ds : List Deployment) → all_ready needed ds ≡ true → AllReady needed ds
unfolding all_ready check_fn
all_ready-AllReady needed [] h = tt
all_ready-AllReady needed (d ∷ ds) h =
    (λ n. ground arith, all_ready-AllReady needed ds (ground arith))

AllReady-all_ready :
    (needed : Text → Bool) (ds : List Deployment) → AllReady needed ds → all_ready needed ds ≡ true
unfolding all_ready check_fn
AllReady-all_ready needed [] h = refl
AllReady-all_ready needed (d ∷ ds) (hd, hds) = ground (arith, AllReady-all_ready needed ds hds)

AllReady-same :
    {p q : Text → Bool}
    → ((n : Text) → p n ≡ q n)
    → (ds : List Deployment) → AllReady p ds
    → AllReady q ds
AllReady-same same [] h = tt
AllReady-same same (d ∷ ds) (hd, hds) = (λ n. hd (same d.name ∙ n), AllReady-same same ds hds)

-- Some component of this name is enabled.
abbrev pub is_on : Text → List ContainerTemplate → Bool
is_on name = any (λ c. text_eq c.name name && get_or c.enabled false)

-- The result in the middle of a chain that succeeds.
bound_ok {ℓ} :
    {A : Type ℓ} (r : Result Bool) (g : Bool → Result A) {a : A}
    → (elim r as (λ x. Result A) [ err e ↦ err e | ok b ↦ g b ]) ≡ ok a
    → (b : Bool) × (r ≡ ok b) × (g b ≡ ok a)
bound_ok (ok b) g h = (b, refl, h)
bound_ok (err e) g h = cc

component_flag-is_on :
    (name : Text) (cs : List ContainerTemplate) {b : Bool}
    → component_flag name cs ≡ ok b
    → b ≡ is_on name cs
unfolding component_flag any deref
component_flag-is_on name [] h = ground (arith, h)
component_flag-is_on name (c ∷ cs) {b} h = elim (Bool-cases (text_eq c.name name)) [
  | inr e ↦ rw e (component_flag-is_on name cs (rw (e, component_flag) at h))
  | inl e ↦
      let (on, d, k) = bound_ok (deref c.enabled) _ (rw (e, component_flag) at h) in
      let (later, l, last) = bound_ok (component_flag name cs) _ k in
      ground (arith, d, last, component_flag-is_on name cs l)
]

-- The deployments of an authorization server that must be ready, and the conditions under which they
-- must. A name that stands here twice has the first condition.
abbrev pub conditions : Text → Bool → List ContainerTemplate → Dict Bool
conditions namespace gateway_api cs =
    (namespace ++ codes "-ingress-nginx-controller", is_on (codes "ingress-nginx") cs)
    ∷ (
      namespace ++ codes "-nginx-gateway-controller",
      (is_on (codes "nginx-gateway-fabric") cs || is_on (codes "nginx") cs) && gateway_api,
    )
    ∷ (codes "cert-manager", is_on (codes "cert-manager") cs)
    ∷ (codes "cert-manager-cainjector", is_on (codes "cert-manager") cs)
    ∷ (codes "cert-manager-webhook", is_on (codes "cert-manager") cs)
    ∷ (codes "proxy-server", true)
    ∷ (codes "redis-commander", true)
    ∷ (codes "redis-primary", true)
    ∷ (codes "role-service", true)
    ∷ (codes "storage-service", true)
    ∷ (codes "tenant-service", true)
    ∷ (codes "authorization-controller", true)
    ∷ []

abbrev pub must_be_ready : Dict Bool → Text → Bool
must_be_ready [] name = false
must_be_ready ((key, needed) ∷ table) name =
    if text_eq name key then needed else must_be_ready table name

proxy_flags-is_on :
    (gateway_api : Bool) (cs : List ContainerTemplate) (f : ProxyFlags)
    → proxy_flags gateway_api cs ≡ ok f
    → (f.nginx_enabled ≡ is_on (codes "ingress-nginx") cs)
      × (f.gateway_enabled
          ≡ ((is_on (codes "nginx-gateway-fabric") cs || is_on (codes "nginx") cs) && gateway_api))
      × (f.proxy_cert_enabled ≡ is_on (codes "cert-manager") cs)
unfolding proxy_flags
proxy_flags-is_on gateway_api cs f h =
    let (nginx, e1, h1) = bound_ok (component_flag (codes "ingress-nginx") cs) _ h in
    let (fabric, e2, h2) = bound_ok (component_flag (codes "nginx-gateway-fabric") cs) _ h1 in
    let (legacy, e3, h3) = bound_ok (component_flag (codes "nginx") cs) _ h2 in
    let (cert, e4, h4) = bound_ok (component_flag (codes "cert-manager") cs) _ h3 in
    ground (
      arith,
      h4,
      component_flag-is_on (codes "ingress-nginx") cs e1,
      component_flag-is_on (codes "nginx-gateway-fabric") cs e2,
      component_flag-is_on (codes "nginx") cs e3,
      component_flag-is_on (codes "cert-manager") cs e4,
    )

not_service :
    (key name : Text)
    → is_proxy_service key ≡ false
    → text_eq name key ≡ true
    → is_proxy_service name ≡ false
not_service key name h e =
    subst (λ n. is_proxy_service n ≡ false) (sym ((text_eq_iff name key).0 e)) h

needs_proxy-conditions :
    (namespace : Text) (gateway_api : Bool) (cs : List ContainerTemplate) (f : ProxyFlags)
    → proxy_flags gateway_api cs ≡ ok f
    → (name : Text)
    → must_be_ready (conditions namespace gateway_api cs) name ≡ needs_proxy namespace f name
unfolding needs_proxy needs_cert_manager is_proxy_service text_eq
needs_proxy-conditions namespace gateway_api cs f h name =
    let (nginx, gateway, cert) = proxy_flags-is_on gateway_api cs f h in
    rw (← nginx, ← gateway, ← cert)
      (ground (
        arith,
        not_service (codes "cert-manager") name refl,
        not_service (codes "cert-manager-cainjector") name refl,
        not_service (codes "cert-manager-webhook") name refl,
      ))

-- Where no component of the server's that the check reads leaves its switch unset, and the deployments
-- of its namespace can be listed: the check passes exactly when those of them that a table of names
-- and conditions asks for have all their replicas ready; one that is not listed is not asked for. The
-- table has the two ingress controllers and cert-manager's deployments, if the components enable them,
-- and the seven services; the deployment of the gateway that is waited for elsewhere is not in it.
pub auth_proxy_status_check-AllReady :
    {W : Type 0} (api : Client W) (cr : Csm) (f : ProxyFlags) (w : W) (ds : List Deployment)
    → proxy_flags (use_gateway_api cr) (components_of authorization_server cr.spec.modules) ≡ ok f
    → (api.list_deployments cr.namespace w).0 ≡ ok ds
    → ((auth_proxy_status_check api cr w).0 ≡ ok true)
      ↔ AllReady
          (must_be_ready (
            conditions cr.namespace
              (use_gateway_api cr)
              (components_of authorization_server cr.spec.modules)))
          ds
unfolding auth_proxy_status_check ◌>>=◌ pure lift
auth_proxy_status_check-AllReady api cr f w ds fl l =
    let same =
      needs_proxy-conditions cr.namespace (use_gateway_api cr)
        (components_of authorization_server cr.spec.modules) f fl in
    (
      λ h.
          AllReady-same (λ n. sym (same n)) ds
            (all_ready-AllReady (needs_proxy cr.namespace f) ds (ground arith)),
      λ h.
          ground
            (arith, AllReady-all_ready (needs_proxy cr.namespace f) ds (AllReady-same same ds h)),
    )

-- The last character, which a longer text shares with its end.
abbrev last : Text → ℕ
last [] = 0
last (c ∷ []) = c
last (c ∷ d ∷ s) = last (d ∷ s)

last-append : (s : Text) (c : ℕ) (t : Text) → last (s ++ c ∷ t) ≡ last (c ∷ t)
last-append [] c t = refl
last-append (d ∷ []) c t = refl
last-append (d ∷ e ∷ s) c t = last-append (e ∷ s) c t

ends_differ :
    (s : Text) (c : ℕ) (t u : Text)
    → (last u == last (c ∷ t)) ≡ false
    → text_eq (s ++ c ∷ t) u ≡ false
ends_differ s c t u h = ground (arith, text_eq_iff (s ++ c ∷ t) u, last-append s c t)

gateway_fabric :
    (ns : Text) (f : ProxyFlags) → needs_proxy ns f (ns ++ codes "-nginx-gateway-fabric") ≡ false
unfolding needs_proxy needs_cert_manager is_proxy_service
gateway_fabric ns f =
    let differs = ends_differ ns b'-' (codes "nginx-gateway-fabric") in
    rw
      (
        differs (ns ++ codes "-ingress-nginx-controller") (rw last-append),
        differs (ns ++ codes "-nginx-gateway-controller") (rw last-append),
        differs (codes "cert-manager") refl,
        differs (codes "cert-manager-cainjector") refl,
        differs (codes "cert-manager-webhook") refl,
        differs (codes "proxy-server") refl,
        differs (codes "redis-commander") refl,
        differs (codes "redis-primary") refl,
        differs (codes "role-service") refl,
        differs (codes "storage-service") refl,
        differs (codes "tenant-service") refl,
        differs (codes "authorization-controller") refl,
      )
      (ground arith)

-- A deployment with the name that `WaitForGatewayController` polls has no part in the check of an
-- authorization server, ready or not, whatever its components enable.
pub gateway_controller_unchecked :
    (ns : Text) (f : ProxyFlags) (d : Deployment) (ds : List Deployment)
    → d.name ≡ ns ++ codes "-nginx-gateway-fabric"
    → all_ready (needs_proxy ns f) (d ∷ ds) ≡ all_ready (needs_proxy ns f) ds
unfolding all_ready
gateway_controller_unchecked ns f d ds e =
    let unneeded : needs_proxy ns f d.name ≡ false = rw e (gateway_fabric ns f) in rw unneeded
