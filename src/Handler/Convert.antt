-- ===== src/Handler/Convert.antt =====
-- Conversions of Redis replies in crates/redis-web-runtime/src/handler.rs.
use redis_web.Prelude.{
  ℕ, Bool, true, false, ◌||◌, ◌&&◌, Option, none, some, List, [], ◌∷◌, ◌==◌, if◌then◌else◌,
  is_empty,
}
use redis_web.Text.{Bytes, codes}
use redis_web.Text.Decimal.{int_to_string}
use redis_web.Text.Trim.{trim}
use redis_web.Text.Utf8.{from_utf8_lossy}
use redis_web.Resp.Reply.{
  Value, Values, nil, int, bulk_string, array, simple_string, okay, resp3, no_values, value,
}
use redis_web.Http.Json.{
  Json, Jsons, Members, null, number, string, object, no_items, item, no_members, insert,
}

unfoldable mutual
  pub redis_value_to_json : Value → Json
  redis_value_to_json nil = null
  redis_value_to_json (int i) = number i
  redis_value_to_json (bulk_string bytes) = string (from_utf8_lossy bytes)
  redis_value_to_json (array items) = Json.array (redis_values_to_json items)
  redis_value_to_json (simple_string s) = string s
  redis_value_to_json okay = string (codes "OK")
  redis_value_to_json (resp3 _) = null

  -- `items.into_iter().map(redis_value_to_json).collect()`
  redis_values_to_json : Values → Jsons
  redis_values_to_json no_values = no_items
  redis_values_to_json (value v vs) = item (redis_value_to_json v) (redis_values_to_json vs)

unfoldable pub redis_value_to_bytes : Value → Option Bytes
redis_value_to_bytes nil = some []
redis_value_to_bytes (int i) = some (int_to_string i)
redis_value_to_bytes (bulk_string bytes) = some bytes
redis_value_to_bytes (simple_string s) = some s
redis_value_to_bytes okay = some (codes "OK")
redis_value_to_bytes _ = none

abbrev onto_first : ℕ → List Bytes → List Bytes
onto_first c [] = (c ∷ []) ∷ []
onto_first c (l ∷ ls) = (c ∷ l) ∷ ls

-- `text.lines()`: a line ends at `\n` or `\r\n`, and nothing stands behind the last ending.
unfoldable pub lines : Bytes → List Bytes
lines [] = []
lines (c ∷ []) = if c == 10 then [] ∷ [] else (c ∷ []) ∷ []
lines (c ∷ d ∷ s) =
    let unix = [] ∷ lines (d ∷ s) in
    let dos = [] ∷ lines s in
    let longer = onto_first c (lines (d ∷ s)) in
    if c == 10 then unix else if c == 13 && d == 10 then dos else longer

-- `split_once(b)`
unfoldable pub split_once : ℕ → Bytes → Option (Bytes × Bytes)
split_once b [] = none
split_once b (c ∷ s) = elim (c == b) [
  | true ↦ some ([], s)
  | false ↦ elim (split_once b s) [ none ↦ none | some (l, r) ↦ some (c ∷ l, r) ]
]

abbrev starts_with_hash : Bytes → Bool
starts_with_hash [] = false
starts_with_hash (c ∷ _) = c == b'#'

-- one round of the loop over the lines
unfoldable info_line : Bytes → Members → Members
info_line line map =
    let line = trim line in
    if is_empty line || starts_with_hash line then map else elim (split_once b':' line) [
      | none ↦ map
      | some (key, val) ↦ insert (trim key) (string (trim val)) map
    ]

info_lines : List Bytes → Members → Members
info_lines [] map = map
info_lines (l ∷ ls) map = info_lines ls (info_line l map)

unfoldable pub parse_info_output : Bytes → Json
unfolding info_lines info_line
parse_info_output text = object (info_lines (lines text) no_members)
