-- ===== src/Websocket/Loop.antt =====
-- The loop over RESP commands of a WebSocket.
use redis_web.Prelude.{
  ℕ, zero, suc, ◌<◌, Bool, true, false, if◌then◌else◌, List, [], ◌∷◌, ◌++◌, ◌≡◌, ◌≢◌, refl, ◌∙◌, ap,
  arith, All, length, length-append, drop, drop-append, length-drop,
}
use redis_web.Text.{Bytes}
use redis_web.Text.Utf8.{from_utf8_lossy}
use redis_web.Resp.Reply.{value_to_resp}
use redis_web.Resp.Command.{Parsed, incomplete, invalid_format, io, parse_command, read_line}
use redis_web.Resp.RoundTrip.{Fits, command, parse_command-value_to_resp}
use redis_web.Resp.Progress.{parse_command_progress}
use redis_web.Compat.Stream.{Drained, waiting, cleared, returned, crashed}
use redis_web.Compat.Pipelining.{printed}
use redis_web.Compat.Handlers.{Message, binary, text, ping, pong, close, failure}
use redis_web.Websocket.{
  Connection, executable, raw_frame, drain_raw, take_raw, after_raw, handle_socket_raw,
}

module _ (connection : Connection) where
  -- a client that takes whatever is sent
  abbrev Listens : Type 0
  Listens = (m : Message) (x : connection.X) → (connection.send m x).0 ≡ true

  -- A command that is executed, and its reply that is sent; nothing for an empty one.
  abbrev pub serve : List Bytes → connection.X → connection.X
  serve [] x = x
  serve (name ∷ args) x =
      let (execution, x1) =
        connection.execute (executable connection (from_utf8_lossy name) args) x in
      (connection.send (binary (raw_frame connection execution)) x1).1

  abbrev pub serve_all : List (List Bytes) → connection.X → connection.X
  serve_all [] x = x
  serve_all (c ∷ cs) x = serve_all cs (serve c x)

  drain_raw-command :
      (fuel : ℕ) (c : List Bytes) (rest : Bytes) (x : connection.X)
      → Fits c
      → Listens
      → drain_raw connection (suc fuel) (value_to_resp (command c) ++ rest) x
        ≡ drain_raw connection fuel rest (serve c x)
  unfolding drain_raw
  drain_raw-command fuel [] rest x fits listens =
      rw (parse_command-value_to_resp [] rest fits, drain_raw)
        (ap (λ b. drain_raw connection fuel b x) (drop-append (value_to_resp (command [])) rest))
  drain_raw-command fuel (name ∷ args) rest x fits listens =
      let (execution, x1) =
        connection.execute (executable connection (from_utf8_lossy name) args) x in
      rw (parse_command-value_to_resp (name ∷ args) rest fits, drain_raw)
        (rw (listens (binary (raw_frame connection execution)) x1) (
          ap (λ b. drain_raw connection fuel b (serve (name ∷ args) x))
            (drop-append (value_to_resp (command (name ∷ args))) rest)))

  nothing_left : parse_command [] ≡ Parsed.need_more
  unfolding parse_command read_line
  nothing_left = refl

  positive : (c : List Bytes) → 0 < length (value_to_resp (command c))
  unfolding value_to_resp
  positive c = omega arith

  drain_raw-printed :
      (fuel : ℕ) (cs : List (List Bytes)) (x : connection.X)
      → All Fits cs
      → Listens
      → length (printed cs) < fuel
      → drain_raw connection fuel (printed cs) x ≡ waiting [] (serve_all cs x)
  unfolding drain_raw
  drain_raw-printed zero cs x h listens le = absurd (omega arith)
  drain_raw-printed (suc fuel) [] x h listens le = rw (nothing_left, drain_raw)
  drain_raw-printed (suc fuel) (c ∷ cs) x (hc, h) listens le =
      drain_raw-command fuel c (printed cs) x hc listens
      ∙ drain_raw-printed fuel cs (serve c x) h listens
          (omega (arith, le, positive c, length-append (value_to_resp (command c)) (printed cs)))

  -- A message of whole commands, to a client that takes what is sent: each command is executed in
  -- its turn, without a look at the access list, and its reply is sent before the next is executed. Nothing
  -- is left in the buffer. Each command has to fit the parser's allocations.
  pub handle_socket_raw-printed :
      (cs : List (List Bytes)) (x : connection.X)
      → All Fits cs
      → Listens
      → handle_socket_raw connection (binary (printed cs) ∷ []) [] x ≡ waiting [] (serve_all cs x)
  unfolding handle_socket_raw take_raw
  handle_socket_raw-printed cs x h listens =
      ap (after_raw connection (handle_socket_raw connection []))
        (drain_raw-printed (suc (length (printed cs))) cs x h listens (omega arith))

  drain_raw-ends :
      (fuel : ℕ) (buffer : Bytes) (x x' : connection.X)
      → length buffer < fuel
      → drain_raw connection fuel buffer x ≢ Drained.out_of_fuel x'
  unfolding drain_raw
  drain_raw-ends zero buffer x x' le = absurd (omega arith)
  drain_raw-ends (suc fuel) buffer x x' le =
      go (λ rest x1 less. drain_raw-ends fuel rest x1 x' less) (parse_command buffer) refl
    where
      after_send :
          (d : Bool) (rest : Bytes) (x2 : connection.X)
          → drain_raw connection fuel rest x2 ≢ Drained.out_of_fuel x'
          → (elim d as (λ _. Drained connection.X) [
            | true ↦ drain_raw connection fuel rest x2
            | false ↦ returned x2
          ])
            ≢ Drained.out_of_fuel x'
      after_send true rest x2 ends = ends
      after_send false rest x2 ends = cc

      after_error :
          (d : Bool) (x1 : connection.X)
          → (if d then cleared x1 else returned x1) ≢ Drained.out_of_fuel x'
      after_error true x1 = cc
      after_error false x1 = cc

      less_left :
          (args : List Bytes) (consumed : ℕ)
          → parse_command buffer ≡ Parsed.done (args, consumed)
          → length (drop consumed buffer) < fuel
      less_left args consumed e =
          omega
            (arith, le, parse_command_progress buffer args consumed e, length-drop consumed buffer)

      go :
          ((rest : Bytes) (x1 : connection.X)
            → length rest < fuel
            → drain_raw connection fuel rest x1 ≢ Drained.out_of_fuel x')
          → (p : Parsed (List Bytes × ℕ)) → parse_command buffer ≡ p
          → drain_raw connection (suc fuel) buffer x ≢ Drained.out_of_fuel x'
      go again (Parsed.done ([], consumed)) e =
          rw (e, drain_raw) (again (drop consumed buffer) x (less_left [] consumed e))
      go again (Parsed.done (name ∷ args, consumed)) e =
          let (execution, x1) =
            connection.execute (executable connection (from_utf8_lossy name) args) x in
          let (delivered, x2) = connection.send (binary (raw_frame connection execution)) x1 in
          rw (e, drain_raw)
            (after_send delivered (drop consumed buffer) x2
              (again (drop consumed buffer) x2 (less_left (name ∷ args) consumed e)))
      go again Parsed.need_more e = rw (e, drain_raw) cc
      go again (Parsed.bad incomplete) e = rw (e, drain_raw) cc
      go again (Parsed.bad invalid_format) e = rw (e, drain_raw) (after_error _ _)
      go again (Parsed.bad io) e = rw (e, drain_raw) (after_error _ _)
      go again Parsed.capacity_overflow e = rw (e, drain_raw) cc

  take_raw-ends :
      (m : Message) (buffer : Bytes) (x x' : connection.X)
      → take_raw connection m buffer x ≢ Drained.out_of_fuel x'
  unfolding take_raw
  take_raw-ends (binary bytes) buffer x x' =
      drain_raw-ends (suc (length (buffer ++ bytes))) (buffer ++ bytes) x x' (omega arith)
  take_raw-ends (text bytes) buffer x x' =
      drain_raw-ends (suc (length (buffer ++ bytes))) (buffer ++ bytes) x x' (omega arith)
  take_raw-ends (ping payload) buffer x x' = answered (connection.send (pong payload) x)
    where
      answered :
          (sent : Bool × connection.X)
          → (if sent.0 then waiting buffer sent.1 else returned sent.1) ≢ Drained.out_of_fuel x'
      answered (true, x1) = cc
      answered (false, x1) = cc
  take_raw-ends (pong payload) buffer x x' = cc
  take_raw-ends close buffer x x' = cc
  take_raw-ends failure buffer x x' = cc

  -- Whatever messages arrive, the loop over each comes to an end.
  handle_socket_raw-ends :
      (ms : List Message) (buffer : Bytes) (x x' : connection.X)
      → handle_socket_raw connection ms buffer x ≢ Drained.out_of_fuel x'
  unfolding handle_socket_raw
  handle_socket_raw-ends [] buffer x x' = cc
  handle_socket_raw-ends (m ∷ ms) buffer x x' =
      go (take_raw connection m buffer x) (take_raw-ends m buffer x)
        (λ rest x1. handle_socket_raw-ends ms rest x1 x')
    where
      go :
          (d : Drained connection.X)
          → ((x1 : connection.X) → d ≢ Drained.out_of_fuel x1)
          → ((rest : Bytes) (x1 : connection.X)
              → handle_socket_raw connection ms rest x1 ≢ Drained.out_of_fuel x')
          → after_raw connection (handle_socket_raw connection ms) d ≢ Drained.out_of_fuel x'
      go (waiting rest x1) ends next = next rest x1
      go (cleared x1) ends next = next [] x1
      go (returned x1) ends next = cc
      go (crashed x1) ends next = cc
      go (Drained.out_of_fuel x1) ends next = absurd (ends x1 refl)
