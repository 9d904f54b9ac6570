-- ===== src/Modules/Redis/Laws.antt =====
-- Redis credentials that are accepted.
use csm_operator.Prelude.{
  Bool, true, false, not, ◌||◌, List, [], ◌∷◌, ◌≡◌, arith, all, any, ok, ◌↔◌,
}
use csm_operator.Prelude.Text.{is_empty}
use csm_operator.Csm.{ContainerTemplate, RedisProvider}
use csm_operator.Modules.Redis.{
  is_blank, lacks_field, valid_provider, choose_source, validate_redis_config,
}

-- All four fields are there.
abbrev pub has_all_fields : RedisProvider → Bool
has_all_fields p = not (lacks_field p)

abbrev pub blank_or_complete : RedisProvider → Bool
blank_or_complete p = is_blank p || has_all_fields p

valid_provider_lem :
    (valid flag : Bool) (ps : List RedisProvider)
    → (valid_provider valid ps ≡ ok flag)
      ↔ ((all blank_or_complete ps ≡ true) × ((valid || any has_all_fields ps) ≡ flag))
unfolding valid_provider all any
valid_provider_lem valid flag [] = ground arith
valid_provider_lem valid flag (p ∷ ps) =
    ground (arith, valid_provider_lem valid flag ps, valid_provider_lem true flag ps)

-- The credentials are taken from the resource exactly where it has both the user and the password and no
-- complete provider class, and from a provider class exactly where it has neither of the two and a
-- complete class; in both cases no class is there in part. All else is refused.
pub validate_redis_config_lem :
    (c : ContainerTemplate) (direct : Bool)
    → (validate_redis_config c ≡ ok direct) ↔ (
        (all blank_or_complete c.redis_providers ≡ true)
        × (is_empty c.redis_username ≡ not direct)
        × (is_empty c.redis_password ≡ not direct)
        × (any has_all_fields c.redis_providers ≡ not direct))
unfolding validate_redis_config choose_source
validate_redis_config_lem c direct = ground (
  arith,
  valid_provider_lem false true c.redis_providers,
  valid_provider_lem false false c.redis_providers,
)
