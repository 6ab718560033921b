-- ===== src/Handler/Headers.antt =====
-- The headers of an answer: CORS, and the content type.
use redis_web.Prelude.{
  ℕ, Bool, true, false, Option, none, some, [], ◌≡◌, ◌≢◌, refl, sym, ◌∙◌, ◌++◌, ap, arith, ok, err,
  Option-cases, inl, inr, ◌⊎◌,
}
use redis_web.Text.{Bytes, codes, crlf, eq_bytes}
use redis_web.Resp.Reply.{Value, value_to_resp}
use redis_web.Http.Json.{Json}
use redis_web.Http.Response.{
  Response, header, header_insert, header_get, header-header_insert, content_type, etag_name,
  allow_origin, with_cors, typed, untyped,
}
use redis_web.Format.{OutputFormat, json, raw, text, select_jsonp_callback, or_else}
use redis_web.Format.Reply.{json_value_response}
use redis_web.Request.{ParsedRequest, RequestParseError, parse_http_request}
use redis_web.Handler.Process.{
  Host, HttpRequest, AppState, Flow, etag_of, error_text, returns, continues, panics, with_etag,
  json_flow, execution_flow, ok_flow, error_flow, finish, unless_jsonp, extension_type,
  override_type, input_of, is_authorized, process_request, Execution,
}
use redis_web.Handler.Safety.{
  process_request_ok, process_request_err, run_request_denied, run_request_allowed,
}

json_value_response-no_cors :
    (to_string : Json → Bytes) (status : ℕ) (payload : Json) (cb : Option Bytes)
    → header allow_origin (json_value_response to_string status payload cb) ≡ none
unfolding json_value_response header_get
json_value_response-no_cors to_string status payload none = refl
json_value_response-no_cors to_string status payload (some cb) = refl

module _ (host : Host) where
  abbrev answer_origin : Option Response → Option Bytes
  answer_origin none = none
  answer_origin (some r) = header allow_origin r

  -- A request that is refused as malformed or forbidden is answered without the CORS header, which
  -- the code means to add to every response.
  process_request_refused_without_cors :
      (state : AppState host.Net) (req : HttpRequest host.Ip) (s : host.S)
      → ((e : RequestParseError) × (parse_http_request (input_of host state req) ≡ err e))
        ⊎ ((p : ParsedRequest) × (parse_http_request (input_of host state req) ≡ ok p)
            × (is_authorized host state req p ≡ false))
      → (r : Response) × ((process_request host state req s).0 ≡ some r)
        × (header allow_origin r ≡ none)
  process_request_refused_without_cors state req s (inl (e, parsed)) = (
    _,
    ap (λ x. x.0) (process_request_err host state req s e parsed),
    json_value_response-no_cors host.json_to_string 400 _ (select_jsonp_callback req.params),
  )
  process_request_refused_without_cors state req s (inr (p, parsed, denied)) = (
    _,
    ap (λ x. x.0)
        (process_request_ok host state req s p parsed
          ∙ run_request_denied host state req s p denied),
    json_value_response-no_cors host.json_to_string 403 _ p.jsonp_callback,
  )

  origin_kept :
      (n v : Bytes) (r : Response)
      → eq_bytes n allow_origin ≡ false
      → header allow_origin (header_insert n v r) ≡ header allow_origin r
  origin_kept n v r h = ground (arith, header-header_insert n allow_origin v r)

  unless_jsonp-origin :
      (cb ext : Option Bytes) (r : Response)
      → header allow_origin (unless_jsonp host cb ext r) ≡ header allow_origin r
  unless_jsonp-origin (some cb) ext r = refl
  unless_jsonp-origin none none r = refl
  unless_jsonp-origin none (some ct) r = elim (Option-cases (header content_type r)) [
    | inl e ↦ rw (e, extension_type) (origin_kept content_type ct r refl)
    | inr (t, e) ↦ rw (e, extension_type)
  ]

  finish-origin :
      (p : ParsedRequest) (r r' : Response)
      → finish host p (continues r) ≡ some r'
      → header allow_origin r' ≡ some (codes "*")
  unfolding finish
  finish-origin p r r' e =
      go p.content_type_override e ∙ header-header_insert allow_origin allow_origin (codes "*") r
    where
      go :
          (o : Option Bytes)
          → override_type host o p (with_cors r) ≡ some r'
          → header allow_origin r' ≡ header allow_origin (with_cors r)
      go none e =
          ground
            (arith, unless_jsonp-origin p.jsonp_callback p.extension_content_type (with_cors r))
      go (some ct) e = ground (arith, origin_kept content_type ct (with_cors r) refl)

  -- What an answer says of its content type: the override of the query first, then what the builder
  -- of the response said; the suffix only fills a gap, and never in a JSONP answer.
  abbrev type_without_override : Option Bytes → Option Bytes → Option Bytes → Option Bytes
  type_without_override (some cb) ext built = built
  type_without_override none ext built = or_else built ext

  abbrev type_with_override : Option Bytes → ParsedRequest → Option Bytes → Option Bytes
  type_with_override (some ct) p built = some ct
  type_with_override none p built =
      type_without_override p.jsonp_callback p.extension_content_type built

  abbrev expected_type : ParsedRequest → Option Bytes → Option Bytes
  expected_type p built = type_with_override p.content_type_override p built

  type_kept : (r : Response) → header content_type (with_cors r) ≡ header content_type r
  type_kept r = header-header_insert allow_origin content_type (codes "*") r

  type_inserted :
      (ct : Bytes) (r : Response) → header content_type (header_insert content_type ct r) ≡ some ct
  type_inserted ct r = header-header_insert content_type content_type ct r

  extension_type-type :
      (ext : Option Bytes) (r : Response)
      → header content_type (extension_type host ext (header content_type r) r)
        ≡ or_else (header content_type r) ext
  extension_type-type ext r = go ext (header content_type r) refl
    where
      go :
          (ext o : Option Bytes)
          → header content_type r ≡ o
          → header content_type (extension_type host ext o r) ≡ or_else o ext
      go none none e = e
      go none (some t) e = e
      go (some ct) none e = type_inserted ct r
      go (some ct) (some t) e = e

  unless_jsonp-type :
      (cb ext : Option Bytes) (r : Response)
      → header content_type (unless_jsonp host cb ext r)
        ≡ type_without_override cb ext (header content_type r)
  unless_jsonp-type none ext r = extension_type-type ext r
  unless_jsonp-type (some cb) ext r = refl

  -- The content type of a finished answer is that of the query, if it has one. Otherwise it is what
  -- the builder of the answer chose, and the suffix of the path fills the gap where it chose none and
  -- the answer is not JSONP.
  finish-content_type :
      (p : ParsedRequest) (r r' : Response)
      → finish host p (continues r) ≡ some r'
      → header content_type r' ≡ expected_type p (header content_type r)
  unfolding finish
  finish-content_type p r r' e = go p.content_type_override e
    where
      go :
          (o : Option Bytes)
          → override_type host o p (with_cors r) ≡ some r'
          → header content_type r' ≡ type_with_override o p (header content_type r)
      go none e = ground (
        arith,
        unless_jsonp-type p.jsonp_callback p.extension_content_type (with_cors r),
        type_kept r,
      )
      go (some ct) e = ground (arith, type_inserted ct (with_cors r))

  finish-unfit :
      (p : ParsedRequest) (r : Response) (ct : Bytes)
      → p.content_type_override ≡ some ct
      → host.header_value ct ≡ false
      → finish host p (continues r) ≡ none
  unfolding finish
  finish-unfit p r ct asked unfit = rw (asked, unfit)

  raw_flow :
      (p : ParsedRequest) (inm : Option Bytes) (x : Execution)
      → p.output_format ≡ raw
      → (r : Response) × (execution_flow host p inm x ≡ continues r)
  raw_flow p inm (ok v) h = (typed 200 (codes "text/plain") (value_to_resp v), rw h)
  raw_flow p inm (err e) h =
      (typed 200 (codes "text/plain") (codes "-ERR " ++ (error_text e ++ crlf)), rw h)

  -- A request for raw output whose query asks for a content type that cannot be the value of a header
  -- has its command executed, and the handler then panics instead of answering.
  pub process_request_panics :
      (state : AppState host.Net) (req : HttpRequest host.Ip) (s : host.S) (p : ParsedRequest)
      (ct : Bytes)
      → parse_http_request (input_of host state req) ≡ ok p
      → is_authorized host state req p ≡ true
      → p.output_format ≡ raw
      → p.content_type_override ≡ some ct
      → host.header_value ct ≡ false
      → process_request host state req s ≡ (none, (host.execute p.command s).1)
  process_request_panics state req s p ct parsed allowed is_raw asked unfit =
      let (r, flows) = raw_flow p req.if_none_match (host.execute p.command s).0 is_raw in
      process_request_ok host state req s p parsed
      ∙ (run_request_allowed host state req s p allowed
          ∙ rw (flows, finish-unfit p r ct asked unfit))

  -- an early return that has the header
  abbrev ReturnsOrigin : Flow → Type 0
  ReturnsOrigin flow = (r : Response) → flow ≡ returns r → header allow_origin r ≡ some (codes "*")

  with_etag-ReturnsOrigin :
      (enabled : Bool) (d : Bytes) (inm : Option Bytes) (r : Response)
      → ReturnsOrigin (with_etag host enabled d inm r)
  unfolding with_etag
  with_etag-ReturnsOrigin false d inm r r' e = cc e
  with_etag-ReturnsOrigin true d inm r r' e = ground (
    arith,
    header-header_insert allow_origin allow_origin (codes "*")
        (header_insert etag_name (etag_of host d) (untyped 304 [])),
  )

  ok_flow-ReturnsOrigin :
      (f : OutputFormat) (p : ParsedRequest) (inm : Option Bytes) (v : Value)
      → f ≢ text
      → ReturnsOrigin (ok_flow host f p inm v)
  unfolding json_flow
  ok_flow-ReturnsOrigin raw p inm v h r e = cc e
  ok_flow-ReturnsOrigin text p inm v h r e = absurd (h refl)
  ok_flow-ReturnsOrigin json p inm v h r e = with_etag-ReturnsOrigin p.etag_enabled _ inm _ r e

  execution_flow-ReturnsOrigin :
      (p : ParsedRequest) (inm : Option Bytes) (x : Execution)
      → p.output_format ≢ text
      → ReturnsOrigin (execution_flow host p inm x)
  execution_flow-ReturnsOrigin p inm (ok v) h r e =
      ok_flow-ReturnsOrigin p.output_format p inm v h r e
  execution_flow-ReturnsOrigin p inm (err error) h r e = absurd (go p.output_format e)
    where
      go : (f : OutputFormat) → error_flow host f p error ≢ returns r
      go raw = cc
      go text = cc
      go json = cc

  finish_flow-origin :
      (p : ParsedRequest) (flow : Flow) (r' : Response)
      → ReturnsOrigin flow
      → finish host p flow ≡ some r'
      → header allow_origin r' ≡ some (codes "*")
  unfolding finish
  finish_flow-origin p panics r' h e = cc e
  finish_flow-origin p (returns r) r' h e = ground (arith, h r refl)
  finish_flow-origin p (continues r) r' h e = finish-origin p r r' e

  -- An accepted request for JSON or raw output that is answered, with a value, with an error of the
  -- execution or as not modified, is answered with the CORS header.
  process_request_cors :
      (state : AppState host.Net) (req : HttpRequest host.Ip) (s : host.S) (p : ParsedRequest)
      (r : Response)
      → parse_http_request (input_of host state req) ≡ ok p
      → is_authorized host state req p ≡ true
      → p.output_format ≢ text
      → (process_request host state req s).0 ≡ some r
      → header allow_origin r ≡ some (codes "*")
  process_request_cors state req s p r parsed allowed untexted e =
      let run =
        process_request_ok host state req s p parsed
        ∙ run_request_allowed host state req s p allowed in
      let x = (host.execute p.command s).0 in
      finish_flow-origin p (execution_flow host p req.if_none_match x) r
        (execution_flow-ReturnsOrigin p req.if_none_match x untexted) (sym (ap (λ a. a.0) run) ∙ e)
