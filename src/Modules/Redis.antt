-- ===== src/Modules/Redis.antt =====
-- `validateRedisConfig` of pkg/modules/authorization.go: where the redis credentials of an authorization
-- server come from.
pub mod Laws
use csm_operator.Prelude.{
  Bool, true, false, not, ◌&&◌, ◌||◌, List, [], ◌∷◌, if◌then◌else◌, ◌==◌, Result, ok, err, Err,
  ◌>>=◌,
}
use csm_operator.Prelude.Text.{Text, codes, is_empty}
use csm_operator.Csm.{ContainerTemplate, RedisProvider}

abbrev pub is_blank : RedisProvider → Bool
is_blank p =
    is_empty p.class_name
    && (is_empty p.secret_name && (is_empty p.username_key && is_empty p.password_key))

abbrev pub lacks_field : RedisProvider → Bool
lacks_field p =
    is_empty p.class_name
    || (is_empty p.secret_name || (is_empty p.username_key || is_empty p.password_key))

-- The loop: whether an entry so far, or of those to come, is complete.
unfoldable pub valid_provider : Bool → List RedisProvider → Result Bool
valid_provider valid [] = ok valid
valid_provider valid (p ∷ ps) =
    let passed_over = valid_provider valid ps in
    let counted = valid_provider true ps in
    if is_blank p
    then passed_over
    else if lacks_field p
    then err (Err.message (codes "redisSecretProviderClass requires all"))
    else counted

abbrev pub is_nil {ℓ} : {A : Type ℓ} → List A → Bool
is_nil [] = true
is_nil (a ∷ rest) = false

-- What follows the loop.
unfoldable pub choose_source : Bool → ContainerTemplate → Bool → Result Bool
choose_source direct c valid =
    if direct && valid
    then err (Err.message (codes "specify either redisUsername/redisPassword or"))
    else if not direct && not valid
    then err (
        Err.message (
          if is_nil c.redis_providers
          then codes "redis credentials are required"
          else codes "redisSecretProviderClass is incomplete"))
    else ok direct

-- The flag: whether the credentials stand in the resource itself.
unfoldable pub validate_redis_config : ContainerTemplate → Result Bool
validate_redis_config c =
    let has_username = not (is_empty c.redis_username) in
    let has_password = not (is_empty c.redis_password) in
    let read_providers =
      valid_provider false c.redis_providers >>= choose_source (has_username && has_password) c in
    if (has_username && not has_password) || (not has_username && has_password)
    then err (Err.message (codes "redisUsername and redisPassword must be provided together"))
    else read_providers
