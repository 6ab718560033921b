-- ===== src/Handler/Refusals.antt =====
-- Which requests are answered by 403.
use redis_web.Prelude.{
  ℕ, Bool, true, false, Option, none, some, ◌≡◌, ◌≢◌, refl, sym, ◌∙◌, ap, arith, ok, err,
  Bool-cases, Result-cases, Option-cases, inl, inr,
}
use redis_web.Text.{Bytes}
use redis_web.Http.Json.{Json}
use redis_web.Http.Response.{Response, header, content_type, with_cors, header_insert}
use redis_web.Format.{OutputFormat, json, raw, text, select_jsonp_callback}
use redis_web.Format.Reply.{json_value_response, format_response}
use redis_web.Request.{ParsedRequest, parse_http_request}
use redis_web.Resp.Reply.{Value}
use redis_web.Handler.Convert.{redis_value_to_bytes}
use redis_web.Handler.Process.{
  Host, HttpRequest, AppState, Flow, returns, continues, panics, with_etag, json_flow, text_flow,
  text_bytes, execution_flow, ok_flow, error_flow, CommandExecutionError, service_unavailable,
  execution_failed, finish, override_type, unless_jsonp, input_of, is_authorized, forbidden,
  process_request, Execution,
}
use redis_web.Handler.Safety.{
  process_request_ok, process_request_err, run_request_denied, run_request_allowed,
}

json_value_response-status :
    (to_string : Json → Bytes) (status : ℕ) (payload : Json) (cb : Option Bytes)
    → (json_value_response to_string status payload cb).status ≡ status
unfolding json_value_response
json_value_response-status to_string status payload none = refl
json_value_response-status to_string status payload (some cb) = refl

format_response-status :
    (to_string : Json → Bytes) (f : OutputFormat) (command : Bytes) (v : Json) (cb : Option Bytes)
    → (format_response to_string f command v cb).status ≢ 403
unfolding format_response
format_response-status to_string json command v cb =
    λ h. omega (arith, h, json_value_response-status to_string 200 _ cb)
format_response-status to_string raw command v cb = λ h. omega (arith, h)
format_response-status to_string text command v cb = λ h. omega (arith, h)

module _ (host : Host) where
  -- the status that a flow comes to, 0 if to none
  abbrev flow_status : Flow → ℕ
  flow_status panics = 0
  flow_status (returns r) = r.status
  flow_status (continues r) = r.status

  with_etag-status :
      (enabled : Bool) (d : Bytes) (inm : Option Bytes) (r : Response)
      → r.status ≢ 403
      → flow_status (with_etag host enabled d inm r) ≢ 403
  unfolding with_etag header_insert
  with_etag-status false d inm r n = n
  with_etag-status true d inm r n = λ h. ground (arith, n, h)

  text_bytes-status :
      (p : ParsedRequest) (inm b : Option Bytes) → flow_status (text_bytes host p inm b) ≢ 403
  text_bytes-status p inm none =
      λ h. omega (arith, h, json_value_response-status host.json_to_string 500 _ none)
  text_bytes-status p inm (some bytes) =
      with_etag-status p.etag_enabled _ inm _ (λ h. omega (arith, h))

  ok_flow-status :
      (f : OutputFormat) (p : ParsedRequest) (inm : Option Bytes) (v : Value)
      → flow_status (ok_flow host f p inm v) ≢ 403
  unfolding text_flow json_flow
  ok_flow-status raw p inm v = λ h. omega (arith, h)
  ok_flow-status text p inm v = text_bytes-status p inm (redis_value_to_bytes v)
  ok_flow-status json p inm v = with_etag-status p.etag_enabled _ inm _ (
      format_response-status host.json_to_string p.output_format p.command.command_name _
        p.jsonp_callback)

  error_flow-status :
      (f : OutputFormat) (p : ParsedRequest) (error : CommandExecutionError)
      → flow_status (error_flow host f p error) ≢ 403
  error_flow-status raw p error = λ h. omega (arith, h)
  error_flow-status text p (service_unavailable m) = λ h. omega (arith, h)
  error_flow-status text p (execution_failed m) = λ h. omega (arith, h)
  error_flow-status json p (service_unavailable m) =
      λ h. omega (arith, h, json_value_response-status host.json_to_string 503 _ p.jsonp_callback)
  error_flow-status json p (execution_failed m) =
      λ h. omega (arith, h, json_value_response-status host.json_to_string 500 _ p.jsonp_callback)

  execution_flow-status :
      (p : ParsedRequest) (inm : Option Bytes) (x : Execution)
      → flow_status (execution_flow host p inm x) ≢ 403
  execution_flow-status p inm (ok v) = ok_flow-status p.output_format p inm v
  execution_flow-status p inm (err error) = error_flow-status p.output_format p error

  unless_jsonp-status :
      (cb ext : Option Bytes) (r : Response) → (unless_jsonp host cb ext r).status ≡ r.status
  unfolding header_insert
  unless_jsonp-status (some cb) ext r = refl
  unless_jsonp-status none none r = refl
  unless_jsonp-status none (some ct) r = elim (Option-cases (header content_type r)) [
    | inl e ↦ rw (e) refl
    | inr (t, e) ↦ rw (e) refl
  ]

  -- the last lines keep the status
  finish-status :
      (p : ParsedRequest) (flow : Flow) (r : Response)
      → finish host p flow ≡ some r
      → r.status ≡ flow_status flow
  unfolding finish header_insert
  finish-status p panics r e = cc e
  finish-status p (returns r') r e = ground (arith, e)
  finish-status p (continues r') r e = go p.content_type_override e
    where
      go :
          (o : Option Bytes) → override_type host o p (with_cors r') ≡ some r → r.status ≡ r'.status
      go none e =
          ground
            (arith, e, unless_jsonp-status p.jsonp_callback p.extension_content_type (with_cors r'))
      go (some ct) e = ground (arith, e)

  abbrev answer_status : Option Response → ℕ
  answer_status none = 0
  answer_status (some r) = r.status

  -- Exactly the requests are answered by 403 whose path is a command that the access list does not
  -- allow to this client, whatever the backend says, and none of them changes the backend.
  pub process_request-forbidden :
      (state : AppState host.Net) (req : HttpRequest host.Ip) (s : host.S)
      → ((p : ParsedRequest)
          → parse_http_request (input_of host state req) ≡ ok p
          → is_authorized host state req p ≡ false
          → (r : Response) × ((process_request host state req s ≡ (some r, s)) × (r.status ≡ 403)))
        × ((r : Response)
            → (process_request host state req s).0 ≡ some r
            → r.status ≡ 403
            → (p : ParsedRequest) × ((parse_http_request (input_of host state req) ≡ ok p)
                × ((is_authorized host state req p ≡ false)
                    × ((process_request host state req s).1 ≡ s))))
  process_request-forbidden state req s = (
    λ p parsed denied. (
      forbidden host p,
      (
        process_request_ok host state req s p parsed ∙ run_request_denied host state req s p denied,
        json_value_response-status host.json_to_string 403 _ p.jsonp_callback,
      ),
    ),
    λ r answer is_403. elim (Result-cases (parse_http_request (input_of host state req))) [
      | inl (e, parsed) ↦
          let same = sym (ap (λ x. x.0) (process_request_err host state req s e parsed)) ∙ answer in
          absurd (
            omega (
              arith,
              is_403,
              ap answer_status same,
              json_value_response-status host.json_to_string 400 _
                  (select_jsonp_callback req.params),
            ))
      | inr (p, parsed) ↦ elim (Bool-cases (is_authorized host state req p)) [
        | inr denied ↦ (
          p,
          (
            parsed,
            (
              denied,
              ap (λ x. x.1)
                  (process_request_ok host state req s p parsed
                    ∙ run_request_denied host state req s p denied),
            ),
          ),
        )
        | inl allowed ↦
            let flow = execution_flow host p req.if_none_match (host.execute p.command s).0 in
            let same =
              process_request_ok host state req s p parsed
              ∙ run_request_allowed host state req s p allowed in
            absurd (
              execution_flow-status p req.if_none_match (host.execute p.command s).0
                (sym (finish-status p flow r (sym (ap (λ x. x.0) same) ∙ answer)) ∙ is_403))
      ]
    ],
  )
