-- ===== src/Modules/Prechecks/Passing.antt =====
-- What a module's precheck that passes has checked.
use csm_operator.Prelude.{
  Bool, true, not, ◌&&◌, ◌||◌, List, [], ◌∷◌, ◌≡◌, arith, if◌then◌else◌, any, is_ok, ok, wrap, ap,
  sym, ◌∙◌, wrap-eq-ok,
}
use csm_operator.Prelude.Text.{Text, codes, text_eq}
use csm_operator.Exec.{◌>>◌, lift, >>=-ok}
use csm_operator.Csm.{Csm, ContainerTemplate, Module, authorization}
use csm_operator.Files.{OperatorConfig}
use csm_operator.Version.{min_version_check}
use csm_operator.Upgrade.{get_version}
use csm_operator.Drivers.Prechecks.{SecretReader}
use csm_operator.Modules.Prechecks.{
  check_version, check_gateway, check_routes, check_all_routes, nginx_gateway_enabled,
  authorization_server_precheck,
}

-- A proxy server's component with an ingress.
abbrev pub routes_ingress : ContainerTemplate → Bool
routes_ingress c = text_eq c.name (codes "proxy-server") && c.has_ingress

-- A proxy server's component with a gateway.
abbrev pub routes_gateway : ContainerTemplate → Bool
routes_gateway c = text_eq c.name (codes "proxy-server") && c.has_gateway

check_all_routes_lem :
    (is_v25 gateway : Bool) (cs : List ContainerTemplate)
    → is_ok (check_all_routes is_v25 gateway cs) ≡ (
        not (is_v25 && gateway && any routes_ingress cs)
        && not (not is_v25 && not gateway && any routes_gateway cs))
unfolding check_all_routes check_routes any
check_all_routes_lem is_v25 gateway [] = ground arith
check_all_routes_lem is_v25 gateway (c ∷ cs) =
    ground (arith, check_all_routes_lem is_v25 gateway cs)

check_gateway_lem :
    (is_v25 : Bool) (auth : Module)
    → is_ok (check_gateway is_v25 auth) ≡ (
        if is_v25
        then not (nginx_gateway_enabled auth.components && any routes_ingress auth.components)
        else not (nginx_gateway_enabled auth.components || any routes_gateway auth.components))
unfolding check_gateway
check_gateway_lem is_v25 auth =
    ground
      (arith, check_all_routes_lem is_v25 (nginx_gateway_enabled auth.components) auth.components)

-- An authorization server whose precheck passes has a version that the operator's files have. From
-- version 2.5.0 on, no proxy server has an ingress beside an enabled gateway component; before, the
-- gateway component is not enabled and no proxy server has a gateway.
pub authorization_server_precheck-routes :
    {W : Type 0} (get : SecretReader W) (op : OperatorConfig) (auth : Module) (cr : Csm) (w : W)
    → (authorization_server_precheck get op auth cr w).0 ≡ ok tt
    → (version : Text) × (is_v25 : Bool) × (get_version cr op ≡ ok version)
      × (check_version authorization version op ≡ ok tt)
      × (min_version_check (codes "v2.5.0") version ≡ ok is_v25)
      × ((if is_v25
            then not (nginx_gateway_enabled auth.components && any routes_ingress auth.components)
            else not (nginx_gateway_enabled auth.components || any routes_gateway auth.components))
          ≡ true)
unfolding authorization_server_precheck lift
authorization_server_precheck-routes get op auth cr w h =
    let (version, e, h1) = >>=-ok (lift (get_version cr op)) _ w h in
    let (is_v25, e2, h2) =
      >>=-ok
        (lift (check_version authorization version op)
          >> lift (
              wrap (codes "error checking authorization version")
                (min_version_check (codes "v2.5.0") version)))
        _ w h1 in
    let (u, e1, e3) = >>=-ok (lift (check_version authorization version op)) _ w e2 in
    let (u', e4, h3) = >>=-ok (lift (check_gateway is_v25 auth)) _ _ h2 in
    (version, is_v25, e, e1, wrap-eq-ok _ _ e3, sym (check_gateway_lem is_v25 auth) ∙ ap is_ok e4)
