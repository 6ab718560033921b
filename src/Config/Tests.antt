-- ===== src/Config/Tests.antt =====
-- A configuration with a reference to the environment.
use redis_web.Prelude.{
  true, ◌∷◌, refl, Result, false, Option, none, some, [], ◌≡◌, ◌⊎◌, ok, err, if◌then◌else◌,
}
use redis_web.Text.{Bytes, codes, eq_bytes}
use redis_web.Http.Json.{Json, Members, null, string, object, member, no_members, lt_bytes, get}
use redis_web.Config.Env.{expand_env_vars_in_json, env_name, is_valid_env_var_name, push_key}
use redis_web.Config.Settings.{Config, default_settings, apply_legacy_aliases, from_json_value}
use redis_web.Config.Documents.{decorate_config_map}
use redis_web.Config.Decorated.{get-decorate_config_map}
use redis_web.Config.Aliases.{resolved, from_json_value_resolves}
use redis_web.Config.Expansion.{substitute, has_unset, expand_env_vars_in_json_lem}

abbrev environment : Bytes → Option Bytes
environment name = if eq_bytes name (codes "HOST") then some (codes "db") else none

abbrev with_reference : Json
with_reference = object (member (codes "redis_host") (string (codes "$HOST")) no_members)

expand_env_vars_in_json_lem_example :
    ((has_unset environment with_reference ≡ false)
      × (expand_env_vars_in_json environment [] with_reference
          ≡ ok (substitute environment with_reference)))
    ⊎ ((has_unset environment with_reference ≡ true)
        × ((e : Bytes) × (expand_env_vars_in_json environment [] with_reference ≡ err e)))
expand_env_vars_in_json_lem_example = expand_env_vars_in_json_lem environment [] with_reference

-- the loader reads the older name of the number of threads
abbrev read : Config
read = record default_settings { http_threads = none; legacy_http_threads = some 8 }

abbrev loader : Json → Result Bytes Config
loader json = ok read

abbrev settled : Config
settled = record default_settings { http_threads = some 8 }

from_json_value_resolves_example :
    (c : Config) × ((has_unset environment with_reference ≡ false)
      × ((loader (substitute environment with_reference) ≡ ok c) × (settled ≡ resolved c)))
unfolding from_json_value apply_legacy_aliases expand_env_vars_in_json env_name
    is_valid_env_var_name push_key
from_json_value_resolves_example =
    from_json_value_resolves environment loader with_reference settled refl

-- a map with a member that is null
abbrev with_null : Members
with_null =
    member (codes "http_host") (string (codes "h")) (member (codes "redis_socket") null no_members)

get-decorate_config_map_example :
    get (codes "http_host") (
      decorate_config_map with_null
        (codes "s.json")
        (codes "redis_socket" ∷ codes "http_host" ∷ []))
    ≡ some (string (codes "h"))
unfolding lt_bytes get
get-decorate_config_map_example =
    get-decorate_config_map (codes "http_host") with_null (codes "s.json")
      (codes "redis_socket" ∷ codes "http_host" ∷ []) (refl, _)
