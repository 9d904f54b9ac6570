-- ===== src/Examples/Modules.antt =====
-- The checks of the modules, at concrete inputs.
use csm_operator.Prelude.{
  Bool, true, false, not, ◌&&◌, ◌||◌, List, [], ◌∷◌, ◌≡◌, refl, all, any, ok, map, ◌↔◌,
  if◌then◌else◌, leb_ℤ, ltb_ℤ, eq_ℤ, find,
}
use csm_operator.Prelude.Text.{Text, codes, split, is_empty, text_eq, split_from, trim_left}
use csm_operator.Csm.{
  EnvVar, ContainerTemplate, Module, no_template, authorization, get_module, authorization_server,
}
use csm_operator.Samples.{config, flex}
use csm_operator.Samples.Secrets.{reader, reader-IsReader, scale, proxied, gateway_server}
use csm_operator.Version.{min_version_check, version_parser, meets, two_numbers, atoi, magnitude}
use csm_operator.Upgrade.{get_version, own_version}
use csm_operator.Drivers.Certificates.Numbers.{parse_bool}
use csm_operator.Drivers.Prechecks.{find_secrets, get_secret}
use csm_operator.Drivers.Prechecks.Secrets.{exists}
use csm_operator.Modules.Redis.{validate_redis_config}
use csm_operator.Modules.Redis.Laws.{has_all_fields, blank_or_complete, validate_redis_config_lem}
use csm_operator.Modules.Prechecks.{
  add_skip, first_envs, read_proxy_envs, auth_config_version, authorization_secrets,
  authorization_precheck, authorization_server_precheck, check_version, nginx_gateway_enabled,
  require_secrets, check_gateway, check_all_routes, check_routes, has_config_provider,
}
use csm_operator.Modules.Prechecks.Passing.{
  routes_ingress, routes_gateway, authorization_server_precheck-routes,
}
use csm_operator.Modules.Prechecks.Tokens.{says_skip, names_host, authorization_precheck-exists}
use csm_operator.Prelude.Decimal.{scan_digits}
use csm_operator.Exec.{◌>>=◌, lift, attempt, pure, raise}

abbrev redis : ContainerTemplate
redis = record no_template {
  name = codes "redis";
  redis_providers =
      record {
        class_name = codes "c";
        secret_name = codes "s";
        username_key = codes "u";
        password_key = codes "p";
      }
      ∷ [];
}

validate_redis_config_lem_example : (validate_redis_config redis ≡ ok false) ↔ (
    (all blank_or_complete redis.redis_providers ≡ true)
    × (is_empty redis.redis_username ≡ not false)
    × (is_empty redis.redis_password ≡ not false)
    × (any has_all_fields redis.redis_providers ≡ not false))
validate_redis_config_lem_example = validate_redis_config_lem redis false

tokens_found :
    (authorization_precheck reader config proxied scale flex).0
    ≡ ok (map add_skip proxied.components)
unfolding authorization_precheck ◌>>=◌ lift any text_eq is_empty check_version read_proxy_envs
    add_skip parse_bool auth_config_version require_secrets get_secret attempt pure raise
    min_version_check version_parser meets two_numbers atoi split split_from trim_left scan_digits
    magnitude leb_ℤ ltb_ℤ eq_ℤ find
tokens_found = refl

authorization_precheck-exists_example :
    (map add_skip proxied.components ≡ map add_skip proxied.components)
    × (all says_skip (map add_skip proxied.components) ≡ true)
    × (envs : List EnvVar) × (skip : Bool) × (version : Text) × (in_driver_secret : Bool)
    × (first_envs (map add_skip proxied.components) ≡ ok envs)
    × (all names_host envs ≡ true)
    × (read_proxy_envs false envs ≡ ok skip)
    × (auth_config_version config proxied scale ≡ ok version)
    × (min_version_check (codes "v2.4.0") version ≡ ok in_driver_secret)
    × (all (exists reader scale.namespace flex) (authorization_secrets in_driver_secret skip)
        ≡ true)
authorization_precheck-exists_example =
    authorization_precheck-exists reader reader-IsReader config proxied scale flex tokens_found

abbrev gateway_module : Module
gateway_module = get_module gateway_server authorization_server

server_passes :
    (authorization_server_precheck reader config gateway_module gateway_server flex).0 ≡ ok tt
unfolding authorization_server_precheck ◌>>=◌ lift get_version is_empty check_version any text_eq
    own_version get_module check_gateway find_secrets attempt pure raise check_all_routes
    check_routes nginx_gateway_enabled has_config_provider min_version_check version_parser meets
    two_numbers atoi split split_from trim_left scan_digits magnitude leb_ℤ ltb_ℤ eq_ℤ find
server_passes = refl

authorization_server_precheck-routes_example :
    (version : Text) × (is_v25 : Bool) × (get_version gateway_server config ≡ ok version)
    × (check_version authorization version config ≡ ok tt)
    × (min_version_check (codes "v2.5.0") version ≡ ok is_v25)
    × ((if is_v25
          then not (
              nginx_gateway_enabled gateway_module.components
              && any routes_ingress gateway_module.components)
          else not (
              nginx_gateway_enabled gateway_module.components
              || any routes_gateway gateway_module.components))
        ≡ true)
authorization_server_precheck-routes_example =
    authorization_server_precheck-routes reader config gateway_module gateway_server flex
      server_passes
