-- ===== src/Handler/Caching.antt =====
-- Entity tags: a client that sends the tag back is told that it has the response.
use redis_web.Prelude.{
  ℕ, Bool, true, false, Option, none, some, ◌≡◌, refl, sym, ◌∙◌, ap, arith, ok, err, Bool-cases,
  Result-cases, Option-cases, inl, inr,
}
use redis_web.Text.{Bytes, codes, eq_bytes, eq_bytes_refl}
use redis_web.Resp.Reply.{Value}
use redis_web.Http.Json.{Json}
use redis_web.Http.Response.{
  Response, header, header_insert, header_get, header-header_insert, etag_name, content_type,
  allow_origin, with_cors, untyped,
}
use redis_web.Format.{OutputFormat, json, raw, text, select_jsonp_callback}
use redis_web.Format.Reply.{json_value_response, format_response}
use redis_web.Request.{ParsedRequest, parse_http_request}
use redis_web.Handler.Convert.{redis_value_to_bytes}
use redis_web.Handler.Process.{
  Host, HttpRequest, AppState, Flow, returns, continues, panics, with_etag, etag_of, not_modified,
  text_bytes, text_flow, json_flow, ok_flow, error_flow, execution_flow, unless_jsonp,
  extension_type, override_type, CommandExecutionError, finish, input_of, is_authorized,
  run_request, process_request, Execution, forbidden, bad_request,
}
use redis_web.Handler.Safety.{
  process_request_ok, process_request_err, run_request_denied, run_request_allowed,
}

-- no response is built with a tag
json_value_response-etag :
    (to_string : Json → Bytes) (status : ℕ) (payload : Json) (cb : Option Bytes)
    → header etag_name (json_value_response to_string status payload cb) ≡ none
unfolding json_value_response header_get
json_value_response-etag to_string status payload none = refl
json_value_response-etag to_string status payload (some cb) = refl

format_response-etag :
    (to_string : Json → Bytes) (f : OutputFormat) (command : Bytes) (v : Json) (cb : Option Bytes)
    → header etag_name (format_response to_string f command v cb) ≡ none
unfolding format_response header_get
format_response-etag to_string json command v cb = json_value_response-etag to_string _ _ cb
format_response-etag to_string raw command v cb = refl
format_response-etag to_string text command v cb = refl

module _ (host : Host) where
  -- the tag of a response, if the flow goes on with one
  abbrev flow_tag : Flow → Option Bytes
  flow_tag panics = none
  flow_tag (returns r) = header etag_name r
  flow_tag (continues r) = header etag_name r

  abbrev Revalidates : (Option Bytes → Flow) → Type 0
  Revalidates flow =
      (t : Bytes) → flow_tag (flow none) ≡ some t → flow (some t) ≡ returns (not_modified host t)

  with_etag-Revalidates :
      (enabled : Bool) (digested : Bytes) (resp : Response)
      → header etag_name resp ≡ none
      → Revalidates (λ sent. with_etag host enabled digested sent resp)
  unfolding with_etag
  with_etag-Revalidates false digested resp h t e = cc (h, e)
  with_etag-Revalidates true digested resp h t e =
      elim (Bool-cases (host.header_value (etag_of host digested))) [
        | inr unfit ↦ cc (rw (unfit) at e)
        | inl fits ↦ ground (
          arith,
          fits,
          header-header_insert etag_name etag_name (etag_of host digested) resp,
          eq_bytes_refl t,
          eq_bytes_refl etag_name,
        )
      ]

  text_bytes-Revalidates :
      (p : ParsedRequest) (b : Option Bytes) → Revalidates (λ sent. text_bytes host p sent b)
  text_bytes-Revalidates p none t e =
      cc (e, json_value_response-etag host.json_to_string 500 _ none)
  text_bytes-Revalidates p (some bytes) t e =
      with_etag-Revalidates p.etag_enabled _ (untyped 200 bytes) (unfold header_get in refl) t e

  ok_flow-Revalidates :
      (f : OutputFormat) (p : ParsedRequest) (val : Value)
      → Revalidates (λ sent. ok_flow host f p sent val)
  unfolding text_flow json_flow
  ok_flow-Revalidates raw p val t e = unfold header_get in cc e
  ok_flow-Revalidates text p val t e = text_bytes-Revalidates p (redis_value_to_bytes val) t e
  ok_flow-Revalidates json p val t e =
      with_etag-Revalidates p.etag_enabled _ _
        (format_response-etag host.json_to_string p.output_format p.command.command_name _
          p.jsonp_callback)
        t e

  error_flow-tag :
      (f : OutputFormat) (p : ParsedRequest) (error : CommandExecutionError)
      → flow_tag (error_flow host f p error) ≡ none
  error_flow-tag raw p error = unfold header_get in refl
  error_flow-tag text p error = unfold header_get in refl
  error_flow-tag json p error = json_value_response-etag host.json_to_string _ _ p.jsonp_callback

  execution_flow-Revalidates :
      (p : ParsedRequest) (e : Execution) → Revalidates (λ sent. execution_flow host p sent e)
  execution_flow-Revalidates p (ok val) t e = ok_flow-Revalidates p.output_format p val t e
  execution_flow-Revalidates p (err error) t e = cc (e, error_flow-tag p.output_format p error)

  etag_kept :
      (n v : Bytes) (r : Response)
      → eq_bytes n etag_name ≡ false
      → header etag_name (header_insert n v r) ≡ header etag_name r
  etag_kept n v r h = ground (arith, header-header_insert n etag_name v r)

  unless_jsonp-tag :
      (cb ext : Option Bytes) (r : Response)
      → header etag_name (unless_jsonp host cb ext r) ≡ header etag_name r
  unless_jsonp-tag (some cb) ext r = refl
  unless_jsonp-tag none none r = refl
  unless_jsonp-tag none (some ct) r = elim (Option-cases (header content_type r)) [
    | inl e ↦ rw (e, extension_type) (etag_kept content_type ct r refl)
    | inr (t, e) ↦ rw (e, extension_type)
  ]

  -- The last lines neither set nor drop a tag.
  override_type-tag :
      (o : Option Bytes) (p : ParsedRequest) (r r' : Response)
      → override_type host o p r ≡ some r'
      → header etag_name r' ≡ header etag_name r
  override_type-tag none p r r' e =
      ground (arith, unless_jsonp-tag p.jsonp_callback p.extension_content_type r)
  override_type-tag (some ct) p r r' e = ground (arith, etag_kept content_type ct r refl)

  finish-tag :
      (p : ParsedRequest) (flow : Flow) (r : Response)
      → finish host p flow ≡ some r
      → header etag_name r ≡ flow_tag flow
  unfolding finish
  finish-tag p panics r e = cc e
  finish-tag p (returns r') r e = ground arith
  finish-tag p (continues r') r e =
      override_type-tag p.content_type_override p (with_cors r') r e
      ∙ etag_kept allow_origin (codes "*") r' refl

  abbrev answer_tag : Option Response → Option Bytes
  answer_tag none = none
  answer_tag (some r) = header etag_name r

  module _ (state : AppState host.Net) (req : HttpRequest host.Ip) (s s' : host.S) where
    abbrev pub sending : Option Bytes → HttpRequest host.Ip
    sending sent = record req { if_none_match = sent }

    -- an early answer has no tag
    untagged {ℓ} :
        {C : Type ℓ} (early r : Response) (t : Bytes)
        → header etag_name early ≡ none
        → ◌≡◌ {A = Option Response × host.S} (some early, s) (some r, s')
        → header etag_name r ≡ some t
        → C
    untagged early r t h e tag = cc (ap (λ x. answer_tag x.0) e, h, tag)

    run_request_revalidates :
        (p : ParsedRequest) (r : Response) (t : Bytes)
        → run_request host state (sending none) p s ≡ (some r, s')
        → header etag_name r ≡ some t
        → run_request host state (sending (some t)) p s ≡ (some (not_modified host t), s')
    unfolding finish
    run_request_revalidates p r t e tag = elim (Bool-cases (is_authorized host state req p)) [
      | inl allowed ↦
          let before = sym (run_request_allowed host state (sending none) s p allowed) ∙ e in
          let execution = (host.execute p.command s).0 in
          let again = execution_flow-Revalidates p execution t (
            sym (finish-tag p (execution_flow host p none execution) r (ap (λ x. x.0) before))
            ∙ tag) in
          run_request_allowed host state (sending (some t)) s p allowed
          ∙ rw (again, finish) (ap (λ x. (some (not_modified host t), x)) (ap (λ x. x.1) before))
      | inr denied ↦
          untagged (forbidden host p) r t
            (json_value_response-etag host.json_to_string 403 _ p.jsonp_callback)
            (sym (run_request_denied host state (sending none) s p denied) ∙ e) tag
    ]

    -- Whatever the command, if the answer to a request without `If-None-Match` carries an entity tag,
    -- then the same request with that tag, from the same state, is answered by 304 with the tag, and
    -- the command is executed as before.
    pub process_request_revalidates :
        (r : Response) (t : Bytes)
        → process_request host state (sending none) s ≡ (some r, s')
        → header etag_name r ≡ some t
        → process_request host state (sending (some t)) s ≡ (some (not_modified host t), s')
    process_request_revalidates r t e tag =
        elim (Result-cases (parse_http_request (input_of host state req))) [
          | inl (error, parsed) ↦
              untagged (bad_request host req.params error) r t
                (json_value_response-etag host.json_to_string 400 _
                  (select_jsonp_callback req.params))
                (sym (process_request_err host state (sending none) s error parsed) ∙ e) tag
          | inr (p, parsed) ↦
              process_request_ok host state (sending (some t)) s p parsed
              ∙ run_request_revalidates p r t
                  (sym (process_request_ok host state (sending none) s p parsed) ∙ e) tag
        ]
