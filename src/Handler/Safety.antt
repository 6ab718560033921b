-- ===== src/Handler/Safety.antt =====
-- What a request can do to the backend, and whether it is answered.
use redis_web.Prelude.{
  true, false, some, ◌≡◌, ◌≢◌, sym, ap, ok, err, Bool-cases, Result-cases, inl, inr,
}
use redis_web.Request.{ParsedRequest, RequestParseError, parse_http_request}
use redis_web.Handler.Process.{
  Host, HttpRequest, AppState, input_of, is_authorized, run_request, process_request, forbidden,
  bad_request, finish, execution_flow,
}

module _ (host : Host) (state : AppState host.Net) (req : HttpRequest host.Ip) (s : host.S) where
  pub process_request_ok :
      (p : ParsedRequest)
      → parse_http_request (input_of host state req) ≡ ok p
      → process_request host state req s ≡ run_request host state req p s
  unfolding process_request
  process_request_ok p parsed = rw (parsed, process_request)

  pub process_request_err :
      (e : RequestParseError)
      → parse_http_request (input_of host state req) ≡ err e
      → process_request host state req s ≡ (some (bad_request host req.params e), s)
  unfolding process_request
  process_request_err e parsed = rw (parsed, process_request)

  module _ (p : ParsedRequest) where
    pub run_request_denied :
        is_authorized host state req p ≡ false
        → run_request host state req p s ≡ (some (forbidden host p), s)
    unfolding run_request
    run_request_denied denied = rw denied

    pub run_request_allowed :
        is_authorized host state req p ≡ true
        → run_request host state req p s ≡ (
            let (execution, s') = host.execute p.command s in
            (finish host p (execution_flow host p req.if_none_match execution), s'))
    unfolding run_request
    run_request_allowed allowed = rw allowed

  -- the request and the execution that a change of the backend goes back to
  abbrev pub IsExecution : host.S → Type 0
  IsExecution s' =
      (p : ParsedRequest) × (parse_http_request (input_of host state req) ≡ ok p)
      × (is_authorized host state req p ≡ true)
      × ((host.execute p.command s).1 ≡ s')

  run_request-IsExecution :
      (p : ParsedRequest)
      → parse_http_request (input_of host state req) ≡ ok p
      → (run_request host state req p s).1 ≢ s
      → IsExecution (run_request host state req p s).1
  run_request-IsExecution p parsed changed = elim (Bool-cases (is_authorized host state req p)) [
    | inl allowed ↦ (p, parsed, allowed, sym (ap (λ r. r.1) (run_request_allowed p allowed)))
    | inr denied ↦ absurd (changed (ap (λ r. r.1) (run_request_denied p denied)))
  ]

  -- If a request changes the backend, then its path was parsed, the access list allows the command to
  -- this client, and the change is that of executing this one command once.
  pub process_request_changes :
      (process_request host state req s).1 ≢ s → IsExecution (process_request host state req s).1
  process_request_changes changed =
      elim (Result-cases (parse_http_request (input_of host state req))) [
        | inl (e, parsed) ↦ absurd (changed (ap (λ r. r.1) (process_request_err e parsed)))
        | inr (p, parsed) ↦
            let same = process_request_ok p parsed in
            rw same (run_request-IsExecution p parsed (rw same at changed))
      ]
