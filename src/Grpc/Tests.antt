-- ===== src/Grpc/Tests.antt =====
-- Calls over a backend that counts what it executes; `DEL` is forbidden to all.
use redis_web.Prelude.{
  ℕ, suc, leb, true, false, none, some, List, [], ◌∷◌, map, take, arith, ok, ◌≡◌, refl, ◌≢◌, ◌≤◌,
}
use redis_web.Text.{Bytes, codes}
use redis_web.Resp.Reply.{okay}
use redis_web.Acl.{new_acl, check_auth}
use redis_web.Handler.Process.{Host, AppState}
use redis_web.Grpc.{
  CommandRequest, Peer, command_from_proto, auth_context, is_allowed, execute, authorize,
}
use redis_web.Grpc.Stream.{
  StreamCommandRequest, id_of, stream_reply, execute_stream, execute_stream_answers,
  execute_stream-take,
}
use redis_web.Grpc.Safety.{IsSameReply, execute_changes, stream_reply-execute}

abbrev host : Host
host = record {
  Ip = ℕ;
  Net = ℕ;
  S = ℕ;
  net_contains = λ net ip. leb ip net;
  base64_decode = λ _. none;
  json_to_string = λ _. [];
  sha1_hex = λ s. s;
  header_value = λ _. true;
  execute = λ c s. (ok okay, suc s);
}

abbrev state : AppState ℕ
state = record {
  default_database = 0;
  acl =
      new_acl (λ _. none)
        (some (
          record {
            disabled = some (codes "DEL" ∷ []);
            enabled = none;
            http_basic_auth = none;
            ip = none;
          }
          ∷ []));
}

abbrev peer : Peer ℕ
peer = record { remote_addr = some 9; authorization = none }

abbrev request : Bytes → CommandRequest
request name = record { command = name; database = none; args = [] }

abbrev del : CommandRequest
del = request (codes "DEL")

-- nothing is forbidden
abbrev open_state : AppState ℕ
open_state = record { default_database = 0; acl = new_acl (λ _. none) none }

run : (execute host 1 open_state peer (request (codes "GET")) 5).1 ≡ 6
unfolding execute command_from_proto authorize check_auth
run = refl

changed : (execute host 1 open_state peer (request (codes "GET")) 5).1 ≢ 5
changed = λ h. omega (arith, run, h)

execute_changes_example :
    ((false ≡ false)
      × ((0 ≤ 255)
          × (is_allowed host 1 open_state (auth_context host 1 peer) (codes "GET") ≡ true)))
    × ((execute host 1 open_state peer (request (codes "GET")) 5).1 ≡ 6)
execute_changes_example = execute_changes host 1 open_state peer (request (codes "GET")) 5 changed

stream_reply-execute_example :
    ((stream_reply host 1 state
        (auth_context host 1 peer)
        (record { correlation_id = codes "x"; command = some (request (codes "GET")) })
        5).1
      ≡ (execute host 1 state peer (request (codes "GET")) 5).1)
    × (IsSameReply host 1 state
        (execute host 1 state peer (request (codes "GET")) 5).0
        (stream_reply host 1 state
          (auth_context host 1 peer)
          (record { correlation_id = codes "x"; command = some (request (codes "GET")) })
          5).0.result)
stream_reply-execute_example =
    stream_reply-execute host 1 state peer (codes "x") (request (codes "GET")) 5

-- a command that is executed, one that is missing, one that is forbidden
abbrev items : List StreamCommandRequest
items =
    record { correlation_id = codes "a"; command = some (request (codes "GET")) }
    ∷ record { correlation_id = codes "b"; command = none }
    ∷ record { correlation_id = codes "c"; command = some del }
    ∷ []

execute_stream_answers_example :
    map
      (id_of host 1 state (auth_context host 1 peer))
      (execute_stream host 1 state (auth_context host 1 peer) (map ok items) 3 2 0).0
    ≡ some (codes "a") ∷ some (codes "b") ∷ some (codes "c") ∷ []
execute_stream_answers_example =
    execute_stream_answers host 1 state (auth_context host 1 peer) items 3 2 0 (omega arith)

execute_stream-take_example :
    execute_stream host 1 state (auth_context host 1 peer) (map ok items) 1 1 0
    ≡ execute_stream host 1 state (auth_context host 1 peer) (take 34 (map ok items)) 1 1 0
execute_stream-take_example =
    execute_stream-take host 1 state (auth_context host 1 peer) (map ok items) 1 1 0 (omega arith)
