-- ===== src/Compat/Bodies.antt =====
-- How `command_raw` answers a body: all commands, too many, and that it answers at all.
use redis_web.Prelude.{
  ℕ, zero, suc, ◌-◌, ◌≤◌, ◌<◌, Bool, false, some, is_empty, List, [], ◌∷◌, ◌++◌, ◌≡◌, ◌≢◌, refl,
  sym, ◌∙◌, ap, arith, All, ltb, length, length-append, append-nil, Bool-cases, inl, inr, lt→ltb,
}
use redis_web.Text.{Bytes}
use redis_web.Resp.Reply.{value_to_resp}
use redis_web.Resp.RoundTrip.{Fits, command}
use redis_web.Compat.Stream.{
  ParseResult, parse_next_command, Pipeline, finished, limit_exceeded, answer, pipeline, run_body,
}
use redis_web.Http.Response.{with_cors}
use redis_web.Compat.Session.{Backend, Session}
use redis_web.Compat.Manager.{CompatSessionSettings, Sessions, store, get_session}
use redis_web.Compat.Handlers.{
  normalize_raw_session_path, resp_plain, execute_in, pipeline_response, body_response, command_raw,
}
use redis_web.Compat.Pipelining.{
  printed, printed-ne-nil, replies, parse_next_command-printed, parse_next_command_shorter,
  pipeline-command, pipeline-printed,
}

length-command : (c : List Bytes) → 0 < length (value_to_resp (command c))
unfolding value_to_resp
length-command c = omega arith

length-printed : (cs : List (List Bytes)) → length cs ≤ length (printed cs)
length-printed [] = omega arith
length-printed (c ∷ cs) = omega (
  arith,
  length-printed cs,
  length-append (value_to_resp (command c)) (printed cs),
  length-command c,
)

module _ {S : Type 0} (allowed : List Bytes → Bool) (execute : List Bytes → S → Bytes × S)
    (max : ℕ) where
  -- A body of as many commands as are allowed, or fewer, is answered by the answers to these commands
  -- in their order, and each has been executed once, if the access list allows it. Each command has to
  -- fit the parser's allocations.
  run_body-printed :
      (cs : List (List Bytes)) (s : S)
      → All Fits cs
      → length cs ≤ max
      → run_body allowed execute max (printed cs) s
        ≡ finished (replies allowed execute cs s).0 (replies allowed execute cs s).1
  unfolding run_body pipeline
  run_body-printed cs s h le =
      let n = length (printed cs) in
      ap (λ b. pipeline allowed execute max (suc n) 0 b [] s) (sym (append-nil (printed cs)))
      ∙ pipeline-printed allowed execute max cs (suc n) (suc (n - length cs)) 0 (length cs) [] [] s
          h (omega (arith, length-printed cs)) (omega arith) le

  -- A body of more commands than are allowed is refused, and the answers are lost, but as many of its
  -- first commands as are allowed have been executed.
  pub run_body-limit :
      (cs : List (List Bytes)) (c : List Bytes) (more : Bytes) (s : S)
      → All Fits cs
      → Fits c
      → length cs ≡ max
      → run_body allowed execute max (printed cs ++ (value_to_resp (command c) ++ more)) s
        ≡ limit_exceeded (replies allowed execute cs s).1
  unfolding run_body
  run_body-limit cs c more s h hc full =
      let last = value_to_resp (command c) ++ more in
      let n = length (printed cs ++ last) in
      let size : length cs ≤ n =
        omega (arith, length-printed cs, length-append (printed cs) last) in
      pipeline-printed allowed execute max cs (suc n) (suc (n - length cs)) 0 (length cs) last [] s
        h (omega arith) (omega arith) (omega arith)
      ∙ (pipeline-command allowed execute max (n - length cs) (length cs) last c more
            (replies allowed execute cs s).0 (replies allowed execute cs s).1
            (printed-ne-nil c more) (parse_next_command-printed c more hc)
          ∙ rw (lt→ltb max (suc (length cs)) (omega arith)))

  pipeline-ends :
      (fuel count : ℕ) (buffer out : Bytes) (s s' : S)
      → length buffer < fuel
      → pipeline allowed execute max fuel count buffer out s ≢ Pipeline.out_of_fuel s'
  unfolding pipeline
  pipeline-ends zero count buffer out s s' h = absurd (omega arith)
  pipeline-ends (suc fuel) count [] out s s' h = cc
  pipeline-ends (suc fuel) count (b ∷ buffer) out s s' h =
      go (λ rest out s1 less. pipeline-ends fuel (suc count) rest out s1 s' less)
        (parse_next_command (b ∷ buffer)) refl
    where
      go :
          ((rest out : Bytes) (s1 : S)
            → length rest < fuel
            → pipeline allowed execute max fuel (suc count) rest out s1 ≢ Pipeline.out_of_fuel s')
          → (p : ParseResult) → parse_next_command (b ∷ buffer) ≡ p
          → pipeline allowed execute max (suc fuel) count (b ∷ buffer) out s
            ≢ Pipeline.out_of_fuel s'
      go again (ParseResult.command args rest) e =
          let shorter = parse_next_command_shorter (b ∷ buffer) args rest e in
          elim (Bool-cases (ltb max (suc count))) [
            | inl full ↦ rw (e, pipeline) (rw full cc)
            | inr room ↦
                rw (e, pipeline)
                  (rw room (
                    again rest (out ++ (answer allowed execute args s).0)
                      (answer allowed execute args s).1 (omega arith)))
          ]
      go again ParseResult.need_more e = rw (e, pipeline) cc
      go again ParseResult.invalid e = rw (e, pipeline) cc
      go again ParseResult.panics e = rw (e, pipeline) cc

  -- Whatever the body, the loop comes to an end: one round for each byte is enough.
  run_body-answers :
      (body : Bytes) (s s' : S) → run_body allowed execute max body s ≢ Pipeline.out_of_fuel s'
  unfolding run_body
  run_body-answers body s s' = pipeline-ends (suc (length body)) 0 body [] s s' (omega arith)

printed-is_empty :
    (c : List Bytes) (rest : Bytes) → is_empty (value_to_resp (command c) ++ rest) ≡ false
unfolding value_to_resp
printed-is_empty c rest = refl

body_response-printed :
    (backend : Backend) (allowed : List Bytes → Bool) (max : ℕ) (c : List Bytes)
    (cs : List (List Bytes)) (session : Session) (s : backend.S)
    → All Fits (c ∷ cs)
    → length (c ∷ cs) ≤ max
    → body_response backend allowed max (printed (c ∷ cs)) session s ≡ (
        let (out, after) = replies allowed (execute_in backend allowed) (c ∷ cs) (session, s) in
        (some (with_cors (resp_plain 200 out)), after.0, after.1))
body_response-printed backend allowed max c cs session s h le =
    rw (printed-is_empty c (printed cs)) (
      ap (pipeline_response backend allowed)
        (run_body-printed allowed (execute_in backend allowed) max (c ∷ cs) (session, s) h le))

-- A request to `command_raw` that finds its session, with a body of one or more commands and no more
-- than are allowed, is answered by 200 and the answers to these commands in their order, and the
-- session is stored as they leave it.
pub command_raw-printed :
    (backend : Backend) (allowed : List Bytes → Bool) (settings : CompatSessionSettings)
    (path : Bytes) (c : List Bytes) (cs : List (List Bytes)) (sessions : Sessions) (s : backend.S)
    (session : Session)
    → All Fits (c ∷ cs)
    → length (c ∷ cs) ≤ settings.max_pipeline_commands
    → (get_session backend settings (normalize_raw_session_path path) sessions s).0 ≡ some session
    → command_raw backend allowed (some settings) path (printed (c ∷ cs)) sessions s ≡ (
        let (out, after) = replies allowed (execute_in backend allowed) (c ∷ cs) (session, s) in
        (
          some (with_cors (resp_plain 200 out)),
          store
              (normalize_raw_session_path path)
              (some after.0)
              (get_session backend settings (normalize_raw_session_path path) sessions s).1,
          after.1,
        ))
unfolding command_raw
command_raw-printed backend allowed settings path c cs sessions s session h le found =
    let id = normalize_raw_session_path path in
    let sessions1 = (get_session backend settings id sessions s).1 in
    rw (found, command_raw)
      (ap (λ r. (r.0, store id (some r.1) sessions1, r.2))
        (body_response-printed backend allowed settings.max_pipeline_commands c cs session s h le))
