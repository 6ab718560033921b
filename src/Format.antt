-- ===== src/Format.antt =====
-- crates/redis-web-core/src/format.rs: output formats, content types and JSONP.
pub mod Reply
use redis_web.Prelude.{
  Bool, true, false, ◌||◌, Option, none, some, if◌then◌else◌, is_empty, [], ◌∷◌, ◌++◌, List, map,
}
use redis_web.Text.{Bytes, codes, eq_bytes}

-- The query parameters, a `HashMap<String, String>` that is only looked up.
abbrev pub Params : Type 0
Params = Bytes → Option Bytes

-- `.and_then(|s| (!s.is_empty()).then_some(s))`
abbrev pub non_empty : Option Bytes → Option Bytes
non_empty none = none
non_empty (some s) = if is_empty s then none else some s

abbrev pub or_else {ℓ} : {A : Type ℓ} → Option A → Option A → Option A
or_else none b = b
or_else (some a) b = some a

unfoldable pub select_jsonp_callback : Params → Option Bytes
select_jsonp_callback params =
    or_else (non_empty (params (codes "jsonp"))) (non_empty (params (codes "callback")))

unfoldable pub content_type_for_extension : Bytes → Option Bytes
content_type_for_extension ext =
    if eq_bytes ext (codes "json")
    then some (codes "application/json")
    else if eq_bytes ext (codes "txt")
    then some (codes "text/plain")
    else if eq_bytes ext (codes "html")
    then some (codes "text/html")
    else if eq_bytes ext (codes "xhtml")
    then some (codes "application/xhtml+xml")
    else if eq_bytes ext (codes "xml")
    then some (codes "text/xml")
    else if eq_bytes ext (codes "png")
    then some (codes "image/png")
    else if eq_bytes ext (codes "jpg") || eq_bytes ext (codes "jpeg")
    then some (codes "image/jpeg")
    else if eq_bytes ext (codes "raw")
    then some (codes "text/plain")
    else none

pub data OutputFormat : Type 0 where
  json raw text : OutputFormat

unfoldable pub from_extension : Bytes → Option OutputFormat
from_extension ext =
    if eq_bytes ext (codes "json")
    then some json
    else if eq_bytes ext (codes "raw")
    then some raw
    else if eq_bytes ext (codes "txt")
        || (eq_bytes ext (codes "html")
            || (eq_bytes ext (codes "xhtml")
                || (eq_bytes ext (codes "xml")
                    || (eq_bytes ext (codes "png")
                        || (eq_bytes ext (codes "jpg") || eq_bytes ext (codes "jpeg"))))))
    then some text
    else none
