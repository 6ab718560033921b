-- ===== src/Websocket/Tests.antt =====
-- Runs over a WebSocket, to a client that counts what it is sent.
use redis_web.Prelude.{ℕ, suc, true, List, [], ◌∷◌, ◌≡◌, none, refl, arith, ok}
use redis_web.Text.{Bytes, codes}
use redis_web.Resp.Reply.{okay}
use redis_web.Resp.RoundTrip.{Fits}
use redis_web.Compat.Stream.{waiting}
use redis_web.Compat.Pipelining.{printed}
use redis_web.Compat.Handlers.{binary}
use redis_web.Websocket.{Connection, handle_socket_raw}
use redis_web.Websocket.Loop.{serve_all, handle_socket_raw-printed}

abbrev connection : Connection
connection = record {
  X = ℕ;
  default_database = 0;
  execute = λ command x. (ok okay, x);
  send = λ m x. (true, suc x);
  subscribe_channel = λ channel x. x;
  parse_strings = λ s. none;
  json_to_string = λ v. [];
}

abbrev commands : List (List Bytes)
commands = (codes "PING" ∷ []) ∷ [] ∷ (codes "GET" ∷ codes "k" ∷ []) ∷ []

fits : Fits (codes "PING" ∷ []) × (Fits [] × Fits (codes "GET" ∷ codes "k" ∷ []))
fits = (
  (omega arith, (omega arith, tt)),
  ((omega arith, tt), (omega arith, (omega arith, (omega arith, tt)))),
)

handle_socket_raw-printed_example :
    handle_socket_raw connection (binary (printed commands) ∷ []) [] 4
    ≡ waiting [] (serve_all connection commands 4)
handle_socket_raw-printed_example =
    handle_socket_raw-printed connection commands 4 (fits.0, (fits.1.0, (fits.1.1, tt)))
      (λ m x. refl)
