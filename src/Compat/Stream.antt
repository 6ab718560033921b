-- ===== src/Compat/Stream.antt =====
-- The loops of crates/redis-web-runtime/src/compat.rs that read commands from a buffer: that of
-- `command_raw` over the body of a request, and that of `handle_ws` over a message.
use redis_web.Prelude.{
  ℕ, zero, suc, Bool, true, false, List, [], ◌∷◌, ◌++◌, if◌then◌else◌, ltb, length, drop,
}
use redis_web.Text.{Bytes, codes, crlf}
use redis_web.Resp.Command.{Parsed, parse_command}

-- `ParseResult`, where a command comes with what is left of the buffer; `panics` is the panic of
-- `parse_command`.
pub data ParseResult : Type 0 where
  command : List Bytes → Bytes → ParseResult
  need_more invalid panics : ParseResult

unfoldable pub parse_next_command : Bytes → ParseResult
parse_next_command buffer = elim (parse_command buffer) [
  | Parsed.done (args, consumed) ↦ command args (drop consumed buffer)
  | Parsed.need_more ↦ ParseResult.need_more
  | Parsed.bad error ↦ invalid
  | Parsed.capacity_overflow ↦ panics
]

abbrev forbidden_frame : Bytes
forbidden_frame = codes "-ERR forbidden" ++ crlf

-- How the loop of `command_raw` ends, with the session and the backend as it leaves them.
pub data Pipeline (S : Type 0) : Type 0 where
  finished : Bytes → S → Pipeline S
  limit_exceeded incomplete invalid_command panicked out_of_fuel : S → Pipeline S

-- How the loop of `handle_ws` over one message ends: it waits for more behind what is left in the
-- buffer, it has answered invalid input and cleared the buffer, or the connection is closed.
pub data Drained (S : Type 0) : Type 0 where
  waiting : Bytes → S → Drained S
  cleared returned crashed out_of_fuel : S → Drained S

module _ {S : Type 0} (allowed : List Bytes → Bool) (execute : List Bytes → S → Bytes × S) where
  -- One command: executed if the access list allows it.
  unfoldable pub answer : List Bytes → S → Bytes × S
  answer args s = if allowed args then execute args s else (forbidden_frame, s)

  unfoldable pub pipeline : ℕ → ℕ → ℕ → Bytes → Bytes → S → Pipeline S
  pipeline max zero count buffer out s = Pipeline.out_of_fuel s
  pipeline max (suc fuel) count [] out s = finished out s
  pipeline max (suc fuel) count (b ∷ buffer) out s = elim (parse_next_command (b ∷ buffer)) [
    | command args rest ↦ elim (ltb max (suc count)) [
      | true ↦ limit_exceeded s
      | false ↦ pipeline max fuel (suc count) rest (out ++ (answer args s).0) (answer args s).1
    ]
    | ParseResult.need_more ↦ incomplete s
    | invalid ↦ invalid_command s
    | panics ↦ panicked s
  ]

  module _ (send : Bytes → S → Bool × S) where
    -- the inner loop of `handle_ws`; `send` hands a frame to the task that writes to the socket, and
    -- tells if that task is still there
    unfoldable pub drain_buffer : ℕ → Bytes → S → Drained S
    drain_buffer zero buffer s = Drained.out_of_fuel s
    drain_buffer (suc fuel) buffer s = elim (parse_next_command buffer) [
      | command args rest ↦
          let (frame, s1) = answer args s in
          let (delivered, s2) = send frame s1 in
          elim delivered [ true ↦ drain_buffer fuel rest s2 | false ↦ returned s2 ]
      | ParseResult.need_more ↦ waiting buffer s
      | invalid ↦ cleared (send (codes "-ERR Invalid RESP" ++ crlf) s).1
      | panics ↦ crashed s
    ]

  -- the loop over a body, from the first command
  unfoldable pub run_body : ℕ → Bytes → S → Pipeline S
  run_body max body s = pipeline max (suc (length body)) 0 body [] s

  -- the inner loop of `handle_ws` over its buffer
  unfoldable pub drain : (Bytes → S → Bool × S) → Bytes → S → Drained S
  drain send buffer s = drain_buffer send (suc (length buffer)) buffer s
