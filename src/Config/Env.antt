-- ===== src/Config/Env.antt =====
-- The expansion of `$NAME` in crates/redis-web-core/src/config.rs: the strings of the configuration that
-- name a variable of the environment are replaced before it is read.
use redis_web.Prelude.{
  ℕ, suc, Bool, not, ◌&&◌, ◌||◌, Option, none, some, [], ◌∷◌, ◌++◌, ◌==◌, leb, if◌then◌else◌,
  is_empty, all, Result, ok, err, ◌>>=◌,
}
use redis_web.Text.{Bytes, codes}
use redis_web.Text.Ascii.{is_digit}
use redis_web.Text.Decimal.{to_string}
use redis_web.Http.Json.{
  Json, Jsons, Members, boolean, number, fraction, string, object, null, no_items, item, no_members,
  member,
}

-- `JsonPath`
abbrev pub root : Bytes
root = []

unfoldable pub push_key : Bytes → Bytes → Bytes
push_key path key = if is_empty path then key else path ++ b'.' ∷ key

unfoldable pub push_index : Bytes → ℕ → Bytes
push_index path idx = path ++ b'[' ∷ (to_string idx ++ codes "]")

abbrev display : Bytes → Bytes
display path = if is_empty path then codes "<root>" else path

abbrev is_ascii_uppercase : ℕ → Bool
is_ascii_uppercase c = leb b'A' c && leb c b'Z'

unfoldable pub is_valid_env_var_name : Bytes → Bool
is_valid_env_var_name name =
    not (is_empty name) && all (λ c. is_ascii_uppercase c || (is_digit c || (c == b'_'))) name

-- the variable that a string refers to
unfoldable pub env_name : Bytes → Option Bytes
env_name [] = none
env_name (c ∷ name) = if (c == b'$') && is_valid_env_var_name name then some name else none

abbrev pub missing_message : Bytes → Bytes → Bytes
missing_message name path =
    codes "missing environment variable '"
    ++ (name ++ (codes "' referenced by config key '" ++ (display path ++ codes "'")))

-- `env` is `std::env::var`, which fails for a variable that is not set or no Unicode.
module _ (env : Bytes → Option Bytes) where
  abbrev value_or_missing : Bytes → Bytes → Option Bytes → Result Bytes Json
  value_or_missing path name none = err (missing_message name path)
  value_or_missing path name (some found) = ok (string found)

  abbrev pub expand_string : Bytes → Bytes → Option Bytes → Result Bytes Json
  expand_string path s none = ok (string s)
  expand_string path s (some name) = value_or_missing path name (env name)

  unfoldable mutual
    pub expand_env_vars_in_json : Bytes → Json → Result Bytes Json
    expand_env_vars_in_json path (string s) = expand_string path s (env_name s)
    expand_env_vars_in_json path (Json.array vs) =
        expand_items path 0 vs >>= λ expanded. ok (Json.array expanded)
    expand_env_vars_in_json path (object ms) =
        expand_members path ms >>= λ expanded. ok (object expanded)
    expand_env_vars_in_json path null = ok null
    expand_env_vars_in_json path (boolean b) = ok (boolean b)
    expand_env_vars_in_json path (number n) = ok (number n)
    expand_env_vars_in_json path (fraction t) = ok (fraction t)

    pub expand_items : Bytes → ℕ → Jsons → Result Bytes Jsons
    expand_items path idx no_items = ok no_items
    expand_items path idx (item v vs) = expand_env_vars_in_json (push_index path idx) v >>= λ first.
        expand_items path (suc idx) vs >>= λ rest. ok (item first rest)

    pub expand_members : Bytes → Members → Result Bytes Members
    expand_members path no_members = ok no_members
    expand_members path (member key v ms) =
        expand_env_vars_in_json (push_key path key) v >>= λ first.
        expand_members path ms >>= λ rest. ok (member key first rest)
