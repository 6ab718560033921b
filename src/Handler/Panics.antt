-- ===== src/Handler/Panics.antt =====
-- When the handler of crates/redis-web-runtime/src/handler.rs panics instead of answering.
use redis_web.Prelude.{
  true, false, Bool, Option, none, some, ◌≡◌, refl, sym, ◌∙◌, ap, arith, ok, err, Bool-cases,
  Result-cases, inl, inr, ◌⊎◌,
}
use redis_web.Text.{Bytes}
use redis_web.Http.Response.{Response, with_cors}
use redis_web.Format.{OutputFormat, json, raw, text}
use redis_web.Request.{ParsedRequest, parse_http_request}
use redis_web.Handler.Convert.{redis_value_to_bytes}
use redis_web.Handler.Process.{
  Host, HttpRequest, AppState, Flow, etag_of, returns, continues, panics, with_etag, json_flow,
  text_flow, text_bytes, execution_flow, ok_flow, error_flow, finish, override_type, input_of,
  is_authorized, process_request, Execution,
}
use redis_web.Handler.Safety.{
  process_request_ok, process_request_err, run_request_denied, run_request_allowed,
}

module _ (host : Host) where
  -- what makes the handler panic: a content type of the query, or a tag, that no header can have
  abbrev pub Unfit : ParsedRequest → Type 0
  Unfit p =
      ((ct : Bytes) × ((p.content_type_override ≡ some ct) × (host.header_value ct ≡ false)))
      ⊎ ((p.etag_enabled ≡ true)
          × ((digested : Bytes) × (host.header_value (etag_of host digested) ≡ false)))

  with_etag-panics :
      (enabled : Bool) (d : Bytes) (inm : Option Bytes) (r : Response)
      → with_etag host enabled d inm r ≡ panics
      → (enabled ≡ true)
        × ((digested : Bytes) × (host.header_value (etag_of host digested) ≡ false))
  unfolding with_etag
  with_etag-panics false d inm r e = cc e
  with_etag-panics true d inm r e = elim (Bool-cases (host.header_value (etag_of host d))) [
    | inr unfit ↦ (refl, (d, unfit))
    | inl fits ↦ ground (arith, fits, e)
  ]

  execution_flow-panics :
      (p : ParsedRequest) (inm : Option Bytes) (x : Execution)
      → execution_flow host p inm x ≡ panics
      → Unfit p
  unfolding json_flow text_flow
  execution_flow-panics p inm (ok v) e = go p.output_format e
    where
      texts : (b : Option Bytes) → text_bytes host p inm b ≡ panics → Unfit p
      texts none e = cc e
      texts (some bytes) e = inr (with_etag-panics p.etag_enabled _ inm _ e)

      go : (f : OutputFormat) → ok_flow host f p inm v ≡ panics → Unfit p
      go raw e = cc e
      go text e = texts (redis_value_to_bytes v) e
      go json e = inr (with_etag-panics p.etag_enabled _ inm _ e)
  execution_flow-panics p inm (err error) e = go p.output_format e
    where
      go : (f : OutputFormat) → error_flow host f p error ≡ panics → Unfit p
      go raw e = cc e
      go text e = cc e
      go json e = cc e

  finish-panics :
      (p : ParsedRequest) (flow : Flow)
      → finish host p flow ≡ none
      → (flow ≡ panics)
        ⊎ ((ct : Bytes) × ((p.content_type_override ≡ some ct) × (host.header_value ct ≡ false)))
  unfolding finish
  finish-panics p panics e = inl refl
  finish-panics p (returns r) e = cc e
  finish-panics p (continues r) e = go p.content_type_override refl e
    where
      go :
          (o : Option Bytes)
          → p.content_type_override ≡ o
          → override_type host o p (with_cors r) ≡ none
          → (continues r ≡ panics)
            ⊎ ((ct : Bytes) × ((p.content_type_override ≡ some ct)
                  × (host.header_value ct ≡ false)))
      go none h e = cc e
      go (some ct) h e = elim (Bool-cases (host.header_value ct)) [
        | inl fits ↦ cc (rw (fits) at e)
        | inr unfit ↦ inr (ct, (h, unfit))
      ]

  -- A request that gets no answer, since the handler panics, was accepted and its command was executed
  -- once; and either its query asks for a content type that cannot be the value of a header, or an
  -- entity tag was to be sent, and there is one that cannot. Every other request is answered.
  pub process_request_panics_only :
      (state : AppState host.Net) (req : HttpRequest host.Ip) (s : host.S)
      → (process_request host state req s).0 ≡ none
      → (p : ParsedRequest) × ((parse_http_request (input_of host state req) ≡ ok p)
          × ((is_authorized host state req p ≡ true)
              × (((process_request host state req s).1 ≡ (host.execute p.command s).1) × Unfit p)))
  process_request_panics_only state req s none_answered =
      elim (Result-cases (parse_http_request (input_of host state req))) [
        | inl (e, parsed) ↦
            cc (none_answered, ap (λ x. x.0) (process_request_err host state req s e parsed))
        | inr (p, parsed) ↦ elim (Bool-cases (is_authorized host state req p)) [
          | inr denied ↦ cc (
            none_answered,
            ap (λ x. x.0)
                (process_request_ok host state req s p parsed
                  ∙ run_request_denied host state req s p denied),
          )
          | inl allowed ↦
              let same =
                process_request_ok host state req s p parsed
                ∙ run_request_allowed host state req s p allowed in
              (
                p,
                (
                  parsed,
                  (
                    allowed,
                    (
                      ap (λ x. x.1) same,
                      elim (finish-panics p
                          (execution_flow host p req.if_none_match (host.execute p.command s).0)
                          (sym (ap (λ x. x.0) same) ∙ none_answered)) [
                            | inl flows ↦ execution_flow-panics p req.if_none_match _ flows
                            | inr unfit ↦ inl unfit
                          ],
                    ),
                  ),
                ),
              )
        ]
      ]
