-- ===== src/Handler/Process.antt =====
-- `process_request` and the handlers of crates/redis-web-runtime/src/handler.rs.
use redis_web.Prelude.{
  ℕ, Bool, true, false, not, ◌||◌, ◌&&◌, Option, none, some, List, [], ◌∷◌, ◌++◌, if◌then◌else◌,
  Result, ok, err,
}
use redis_web.Text.{Bytes, codes, crlf, eq_bytes}
use redis_web.Text.Ascii.{eq_ignore_ascii_case}
use redis_web.Text.Search.{trim_start_matches}
use redis_web.Resp.Reply.{Value, value_to_resp}
use redis_web.Http.Json.{Json, string}
use redis_web.Http.Response.{
  Response, header, header_insert, content_type, etag_name, allow_origin, with_cors, typed, untyped,
}
use redis_web.Format.{Params, OutputFormat, json, raw, text, select_jsonp_callback}
use redis_web.Format.Reply.{json_value_response, format_response, error_json}
use redis_web.Request.{
  ParseRequestInput, ParsedRequest, ExecutableCommand, RequestParseError, empty_command,
  invalid_database_index, missing_command_after_database_prefix, invalid_command,
  parse_http_request,
}
use redis_web.Acl.{Acl, check_auth}
use redis_web.Handler.Convert.{redis_value_to_json, redis_value_to_bytes, parse_info_output}

-- `CommandExecutionError` of interfaces.rs
pub data CommandExecutionError : Type 0 where
  service_unavailable execution_failed : Bytes → CommandExecutionError

-- its `Display`
abbrev pub error_text : CommandExecutionError → Bytes
error_text (service_unavailable message) = message
error_text (execution_failed message) = message

abbrev error_status : CommandExecutionError → ℕ
error_status (service_unavailable _) = 503
error_status (execution_failed _) = 500

abbrev pub Execution : Type 0
Execution = Result CommandExecutionError Value

pub request_parse_error_message : RequestParseError → Bytes
request_parse_error_message empty_command = codes "Empty command"
request_parse_error_message invalid_database_index =
    codes "Invalid database index in path. Expected 0-255 for /<db>/<COMMAND>/..."
request_parse_error_message missing_command_after_database_prefix =
    codes "Missing command after database prefix"
request_parse_error_message (invalid_command message) = message

-- What a handler passes on: the path without its leading slashes, the query, the body of a POST or
-- PUT, and the headers that the code reads (those that `to_str` accepts).
pub record HttpRequest (Ip : Type 0) : Type 0 where
  pub command : Bytes
  pub params : Params
  pub body : Option Bytes
  pub client_ip : Ip
  pub authorization : Option Bytes
  pub if_none_match : Option Bytes

-- What the program does not implement: JSON text, the hash (in hexadecimal), the test of a header
-- value, addresses, and the backend, whose state `S` a command changes.
pub record Host : Type 1 where
  pub Ip : Type 0
  pub Net : Type 0
  pub S : Type 0
  pub net_contains : Net → Ip → Bool
  pub base64_decode : Bytes → Option Bytes
  pub json_to_string : Json → Bytes
  pub sha1_hex : Bytes → Bytes
  pub header_value : Bytes → Bool
  pub execute : ExecutableCommand → S → Execution × S

-- The code returns early, goes on to the last lines, or panics.
pub data Flow : Type 0 where
  returns continues : Response → Flow
  panics : Flow

abbrev concat_all : List Bytes → Bytes
concat_all [] = []
concat_all (s ∷ ss) = s ++ concat_all ss

abbrev or_empty : Option Bytes → Bytes
or_empty none = []
or_empty (some s) = s

abbrev first_is : List Bytes → Bytes → Bool
first_is [] t = false
first_is (a ∷ _) t = eq_ignore_ascii_case a t

-- the INFO command, and CLUSTER INFO
abbrev is_info : ExecutableCommand → Bool
is_info c =
    eq_ignore_ascii_case c.command_name (codes "INFO")
    || (eq_ignore_ascii_case c.command_name (codes "CLUSTER") && first_is c.args (codes "INFO"))

abbrev info_value : ExecutableCommand → Json → Json
info_value c (string s) = if is_info c then parse_info_output s else string s
info_value c v = v

pub record AppState (Net : Type 0) : Type 0 where
  pub default_database : ℕ
  pub acl : Acl Net

-- the answer to every preflight request
unfoldable pub handle_options : Response
handle_options = record {
  status = 200;
  headers =
      (allow_origin, codes "*")
      ∷ (codes "access-control-allow-methods", codes "GET, POST, PUT, OPTIONS")
      ∷ (codes "access-control-allow-headers", codes "*")
      ∷ [];
  body = [];
}

module _ (host : Host) where
  open host use {
    Ip, Net, S, net_contains, base64_decode, json_to_string, sha1_hex, header_value, execute,
  }

  -- `format!("\"{:x}\"", hasher.finalize())` over the updates so far
  abbrev pub etag_of : Bytes → Bytes
  etag_of digested = b'"' ∷ (sha1_hex digested ++ codes "\"")

  abbrev pub not_modified : Bytes → Response
  not_modified tag = with_cors (header_insert etag_name tag (untyped 304 []))

  abbrev tag_matches : Option Bytes → Bytes → Bool
  tag_matches none tag = false
  tag_matches (some sent) tag = eq_bytes sent tag

  -- The ETag of a GET, and the early return if the client has it. Either way `tag.parse().unwrap()`
  -- panics if the tag cannot be the value of a header. (The other `unwrap`s of the builders are of texts
  -- that are written in the code.)
  unfoldable pub with_etag : Bool → Bytes → Option Bytes → Response → Flow
  with_etag enabled digested if_none_match resp =
      if enabled
      then (if not (header_value (etag_of digested))
          then panics
          else if tag_matches if_none_match (etag_of digested)
          then returns (not_modified (etag_of digested))
          else continues (header_insert etag_name (etag_of digested) resp))
      else continues resp

  abbrev command_digest : ParsedRequest → Bytes
  command_digest p = p.command.command_name ++ concat_all p.command.args

  abbrev pub text_bytes : ParsedRequest → Option Bytes → Option Bytes → Flow
  text_bytes p if_none_match none = returns (
      json_value_response json_to_string 500
        (error_json json_to_string (codes "Text output supports only string/binary Redis replies"))
        none)
  text_bytes p if_none_match (some bytes) =
      with_etag p.etag_enabled (command_digest p ++ bytes) if_none_match (untyped 200 bytes)

  unfoldable pub text_flow : ParsedRequest → Option Bytes → Value → Flow
  text_flow p if_none_match val = text_bytes p if_none_match (redis_value_to_bytes val)

  unfoldable pub json_flow : ParsedRequest → Option Bytes → Value → Flow
  json_flow p if_none_match val =
      let json_val = info_value p.command (redis_value_to_json val) in
      with_etag p.etag_enabled
        (command_digest p ++ (or_empty p.jsonp_callback ++ json_to_string json_val)) if_none_match
        (format_response json_to_string p.output_format p.command.command_name json_val
          p.jsonp_callback)

  abbrev pub ok_flow : OutputFormat → ParsedRequest → Option Bytes → Value → Flow
  ok_flow raw p if_none_match val = continues (typed 200 (codes "text/plain") (value_to_resp val))
  ok_flow text p if_none_match val = text_flow p if_none_match val
  ok_flow json p if_none_match val = json_flow p if_none_match val

  abbrev pub error_flow : OutputFormat → ParsedRequest → CommandExecutionError → Flow
  error_flow raw p error =
      continues (typed 200 (codes "text/plain") (codes "-ERR " ++ (error_text error ++ crlf)))
  error_flow text p error =
      continues (typed (error_status error) (codes "text/plain") (error_text error))
  error_flow json p error = continues (
      json_value_response json_to_string (error_status error)
        (error_json json_to_string (error_text error)) p.jsonp_callback)

  abbrev pub execution_flow : ParsedRequest → Option Bytes → Execution → Flow
  execution_flow p if_none_match (ok val) = ok_flow p.output_format p if_none_match val
  execution_flow p if_none_match (err error) = error_flow p.output_format p error

  abbrev pub extension_type : Option Bytes → Option Bytes → Response → Response
  extension_type (some ct) none r = header_insert content_type ct r
  extension_type _ _ r = r

  abbrev pub unless_jsonp : Option Bytes → Option Bytes → Response → Response
  unless_jsonp none ext r = extension_type ext (header content_type r) r
  unless_jsonp (some _) ext r = r

  -- The last lines: CORS, and the content type; `none` is the panic of `ct.parse().unwrap()`.
  abbrev pub override_type : Option Bytes → ParsedRequest → Response → Option Response
  override_type (some ct) p r =
      if header_value ct then some (header_insert content_type ct r) else none
  override_type none p r = some (unless_jsonp p.jsonp_callback p.extension_content_type r)

  unfoldable pub finish : ParsedRequest → Flow → Option Response
  finish p panics = none
  finish p (returns r) = some r
  finish p (continues r) = override_type p.content_type_override p (with_cors r)

  abbrev pub forbidden : ParsedRequest → Response
  forbidden p =
      json_value_response json_to_string 403 (error_json json_to_string (codes "Forbidden"))
        p.jsonp_callback

  abbrev pub bad_request : Params → RequestParseError → Response
  bad_request params error =
      json_value_response json_to_string 400
        (error_json json_to_string (request_parse_error_message error))
        (select_jsonp_callback params)

  abbrev is_none {ℓ} : {A : Type ℓ} → Option A → Bool
  is_none none = true
  is_none (some _) = false

  abbrev pub input_of : AppState Net → HttpRequest Ip → ParseRequestInput
  input_of state req = record {
    command_path = req.command;
    params = req.params;
    default_database = state.default_database;
    body = req.body;
    etag_enabled = is_none req.body;
  }

  abbrev pub is_authorized : AppState Net → HttpRequest Ip → ParsedRequest → Bool
  is_authorized state req p =
      check_auth net_contains base64_decode state.acl
        (record { client_ip = req.client_ip; authorization = req.authorization })
        p.command.command_name

  -- An accepted request: the check, the execution, the response.
  unfoldable pub run_request :
      AppState Net → HttpRequest Ip → ParsedRequest → S → Option Response × S
  unfolding finish
  run_request state req p s =
      if is_authorized state req p
      then (let (execution, s') = execute p.command s in
          (finish p (execution_flow p req.if_none_match execution), s'))
      else (some (forbidden p), s)

  unfoldable pub process_request : AppState Net → HttpRequest Ip → S → Option Response × S
  process_request state req s = elim (parse_http_request (input_of state req)) [
    | err error ↦ (some (bad_request req.params error), s)
    | ok p ↦ run_request state req p s
  ]

  -- `handle_get`, `handle_post` and `handle_put` take the path of the URI and the body, if they read one.
  unfoldable pub handle_get : AppState Net → Bytes → HttpRequest Ip → S → Option Response × S
  handle_get state path req =
      process_request state (record req { command = trim_start_matches b'/' path; body = none })

  unfoldable pub handle_post :
      AppState Net → Bytes → Bytes → HttpRequest Ip → S → Option Response × S
  handle_post state path body req =
      process_request state
        (record req { command = trim_start_matches b'/' path; body = some body })

  unfoldable handle_default_root : AppState Net → Bytes → HttpRequest Ip → S → Option Response × S
  handle_default_root state default_root req =
      process_request state (record req { command = default_root; body = none })
