-- ===== src/Format/Reply.antt =====
-- The response builders of crates/redis-web-core/src/format.rs. `to_string` is that of `serde_json`.
use redis_web.Prelude.{ℕ, true, false, Option, none, some, [], ◌∷◌, ◌++◌}
use redis_web.Text.{Bytes, codes}
use redis_web.Text.Decimal.{int_to_string}
use redis_web.Http.Json.{
  Json, Jsons, null, boolean, number, fraction, string, array, object, no_items, item, no_members,
  member,
}
use redis_web.Http.Response.{Response, typed}
use redis_web.Format.{OutputFormat, json, raw, text}

-- One element of an array, in the plain text of the raw formatter.
abbrev element_text : Json → Bytes
element_text (string s) = s
element_text (number n) = int_to_string n
element_text (fraction s) = s
element_text (boolean true) = codes "true"
element_text (boolean false) = codes "false"
element_text _ = []

-- `strings.join("\n")`
unfoldable join_lines : Jsons → Bytes
join_lines no_items = []
join_lines (item v no_items) = element_text v
join_lines (item v (item w vs)) = element_text v ++ b'\n' ∷ join_lines (item w vs)

module _ (to_string : Json → Bytes) where
  unfoldable pub json_value_response : ℕ → Json → Option Bytes → Response
  json_value_response status payload (some cb) =
      typed status (codes "application/javascript; charset=utf-8")
        (cb ++ b'(' ∷ (to_string payload ++ codes ")"))
  json_value_response status payload none =
      typed status (codes "application/json") (to_string payload)

  abbrev raw_text : Json → Bytes
  raw_text null = []
  raw_text (array vs) = join_lines vs
  raw_text (object ms) = to_string (object ms)
  raw_text v = element_text v

  abbrev pub error_json : Bytes → Json
  error_json message = object (member (codes "error") (string message) no_members)

  unfoldable pub format_response : OutputFormat → Bytes → Json → Option Bytes → Response
  unfolding json_value_response join_lines
  format_response json command value jsonp_callback =
      json_value_response 200 (object (member command value no_members)) jsonp_callback
  format_response raw command value jsonp_callback = typed 200 (codes "text/plain") (raw_text value)
  format_response text command value jsonp_callback =
      typed 500 (codes "application/json")
        (to_string (error_json (codes "invalid output format for JSON formatter")))
