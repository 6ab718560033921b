-- ===== src/Handler/Tests.antt =====
-- Requests that are answered, over a backend that counts what it executes.
use redis_web.Prelude.{
  ℕ, suc, true, false, leb, all, Option, none, some, List, [], ◌∷◌, ◌≡◌, ◌≢◌, refl, arith, ok,
}
use redis_web.Text.{Bytes, codes, eq_bytes}
use redis_web.Text.Ascii.{to_ascii_lowercase, eq_ignore_ascii_case}
use redis_web.Text.Decimal.{parse_uint}
use redis_web.Text.Search.{split, rfind}
use redis_web.Text.Utf8.{from_utf8_lossy}
use redis_web.Resp.Reply.{okay}
use redis_web.Http.Response.{
  Response, header, header_insert, header_get, header_remove, content_type, etag_name, allow_origin,
}
use redis_web.Format.{
  Params, select_jsonp_callback, OutputFormat, json, raw, text, from_extension,
  content_type_for_extension,
}
use redis_web.Format.Reply.{format_response, json_value_response}
use redis_web.Request.{
  ParsedRequest, select_database, take_extension, take_last_extension, finish_request,
  parse_http_request,
}
use redis_web.Request.Percent.{percent_decode, percent_decode_segment_lossy}
use redis_web.Acl.{new_acl, check_auth, check_rules, apply_rule, rule_matches, set_if_named}
use redis_web.Handler.Convert.{redis_value_to_json, redis_value_to_bytes}
use redis_web.Handler.Process.{
  Host, HttpRequest, AppState, continues, with_etag, json_flow, text_flow, finish, not_modified,
  input_of, is_authorized, run_request, process_request,
}
use redis_web.Handler.Safety.{process_request_changes, IsExecution}
use redis_web.Handler.Refusals.{process_request-forbidden}
use redis_web.Handler.Panics.{Unfit, process_request_panics_only}
use redis_web.Handler.Caching.{sending, process_request_revalidates}
use redis_web.Handler.Headers.{process_request_panics}

abbrev host : Host
host = record {
  Ip = ℕ;
  Net = ℕ;
  S = ℕ;
  net_contains = λ net ip. leb ip net;
  base64_decode = λ _. none;
  json_to_string = λ _. codes "[]";
  sha1_hex = λ s. s;
  header_value = all (λ c. leb 32 c);
  execute = λ c s. (ok okay, suc s);
}

-- `DEL` is forbidden to all.
abbrev state : AppState ℕ
state = record {
  default_database = 0;
  acl =
      new_acl (λ _. none)
        (some (
          record {
            disabled = some (codes "DEL" ∷ []);
            enabled = none;
            http_basic_auth = none;
            ip = none;
          }
          ∷ []));
}

-- the query asks for a content type, or for nothing
abbrev asking : Option Bytes → Params
asking o name = elim (eq_bytes name (codes "type")) [ true ↦ o | false ↦ none ]

abbrev request : Bytes → Option Bytes → HttpRequest ℕ
request path o = record {
  command = path;
  params = asking o;
  body = none;
  client_ip = 9;
  authorization = none;
  if_none_match = none;
}

abbrev parsed_as : Bytes → List Bytes → OutputFormat → Option Bytes → Option Bytes → ParsedRequest
parsed_as name args f o ext = record {
  command = record { target_database = 0; command_name = name; args = args };
  output_format = f;
  jsonp_callback = none;
  content_type_override = o;
  extension_content_type = ext;
  etag_enabled = true;
}

-- `process_request` with all that it calls open
running : AppState ℕ → HttpRequest ℕ → ℕ → Option Response × ℕ
unfolding process_request run_request finish with_etag json_flow text_flow parse_http_request
    select_database finish_request take_extension take_last_extension split rfind to_ascii_lowercase
    parse_uint percent_decode percent_decode_segment_lossy from_utf8_lossy select_jsonp_callback
    from_extension content_type_for_extension check_auth check_rules apply_rule rule_matches
    set_if_named eq_ignore_ascii_case format_response json_value_response header_insert header_get
    header_remove redis_value_to_json redis_value_to_bytes
running = process_request host

abbrev deletion : ParsedRequest
deletion = parsed_as (codes "DEL") (codes "k" ∷ []) json none none

deletion-parsed :
    parse_http_request (input_of host state (request (codes "DEL/k") none)) ≡ ok deletion
unfolding running
deletion-parsed = refl

deletion-denied : is_authorized host state (request (codes "DEL/k") none) deletion ≡ false
unfolding running
deletion-denied = refl

process_request-forbidden_example :
    ((p : ParsedRequest)
      → parse_http_request (input_of host state (request (codes "DEL/k") none)) ≡ ok p
      → is_authorized host state (request (codes "DEL/k") none) p ≡ false
      → (r : Response) × ((process_request host state (request (codes "DEL/k") none) 4
            ≡ (some r, 4))
          × (r.status ≡ 403)))
    × ((r : Response)
        → (process_request host state (request (codes "DEL/k") none) 4).0 ≡ some r
        → r.status ≡ 403
        → (p : ParsedRequest) × ((parse_http_request
                (input_of host state (request (codes "DEL/k") none))
              ≡ ok p)
            × ((is_authorized host state (request (codes "DEL/k") none) p ≡ false)
                × ((process_request host state (request (codes "DEL/k") none) 4).1 ≡ 4))))
process_request-forbidden_example =
    process_request-forbidden host state (request (codes "DEL/k") none) 4

abbrev lookup : OutputFormat → Option Bytes → Option Bytes → ParsedRequest
lookup f o ext = parsed_as (codes "GET") (codes "k" ∷ []) f o ext

lookup-parsed :
    parse_http_request (input_of host state (request (codes "GET/k") none))
    ≡ ok (lookup json none none)
unfolding running
lookup-parsed = refl

lookup-allowed :
    (f : OutputFormat) (o ext : Option Bytes)
    → is_authorized host state (request (codes "GET/k") o) (lookup f o ext) ≡ true
unfolding running
lookup-allowed f o ext = refl

changed : (process_request host state (request (codes "GET/k") none) 4).1 ≢ 4
unfolding running
changed = λ e. omega (arith, e)

process_request_changes_example :
    IsExecution host state
      (request (codes "GET/k") none)
      4
      (process_request host state (request (codes "GET/k") none) 4).1
process_request_changes_example =
    process_request_changes host state (request (codes "GET/k") none) 4 changed

abbrev json_answer : Response
json_answer = record {
  status = 200;
  headers =
      (allow_origin, codes "*")
      ∷ (etag_name, codes "\"GETk[]\"")
      ∷ (content_type, codes "application/json")
      ∷ [];
  body = codes "[]";
}

answered :
    process_request host state (sending host state (request (codes "GET/k") none) 4 4 none) 4
    ≡ (some json_answer, 5)
unfolding running
answered = refl

json_answer-tag : header etag_name json_answer ≡ some (codes "\"GETk[]\"")
unfolding running
json_answer-tag = refl

process_request_revalidates_example :
    process_request host state
      (sending host state (request (codes "GET/k") none) 4 5 (some (codes "\"GETk[]\"")))
      4
    ≡ (some (not_modified host (codes "\"GETk[]\"")), 5)
process_request_revalidates_example =
    process_request_revalidates host state (request (codes "GET/k") none) 4 5 json_answer
      (codes "\"GETk[]\"") answered json_answer-tag

built : Response
unfolding running
built = record { status = 200; headers = (etag_name, codes "t") ∷ []; body = codes "x" }

served : Response
unfolding running
served = record {
  status = 200;
  headers =
      (content_type, codes "text/html") ∷ (allow_origin, codes "*") ∷ (etag_name, codes "t") ∷ [];
  body = codes "x";
}

finished : finish host (lookup text none (some (codes "text/html"))) (continues built) ≡ some served
unfolding running built served
finished = refl

abbrev two_lines : Option Bytes
two_lines = some (codes "a\nb")

raw-parsed :
    parse_http_request (input_of host state (request (codes "GET/k.raw") two_lines))
    ≡ ok (lookup raw two_lines (some (codes "text/plain")))
unfolding running
raw-parsed = refl

process_request_panics_example :
    process_request host state (request (codes "GET/k.raw") two_lines) 4 ≡ (none, 5)
process_request_panics_example =
    process_request_panics host state (request (codes "GET/k.raw") two_lines) 4
      (lookup raw two_lines (some (codes "text/plain"))) (codes "a\nb") raw-parsed
      (lookup-allowed raw two_lines (some (codes "text/plain"))) refl refl refl

panicked : (process_request host state (request (codes "GET/k.raw") two_lines) 4).0 ≡ none
unfolding running
panicked = refl

process_request_panics_only_example :
    (p : ParsedRequest) × ((parse_http_request
          (input_of host state (request (codes "GET/k.raw") two_lines))
        ≡ ok p)
      × ((is_authorized host state (request (codes "GET/k.raw") two_lines) p ≡ true)
          × (((process_request host state (request (codes "GET/k.raw") two_lines) 4).1 ≡ 5)
              × Unfit host p)))
unfolding running
process_request_panics_only_example =
    process_request_panics_only host state (request (codes "GET/k.raw") two_lines) 4 panicked
