-- ===== src/Compat/Tests.antt =====
-- Sessions over a server that answers every command by `+OK`.
use redis_web.Prelude.{
  ℕ, suc, ◌≤◌, Bool, true, false, Option, none, some, List, [], ◌∷◌, ◌++◌, ◌≡◌, refl, arith, ok,
  length, err, zero,
}
use redis_web.Text.{Bytes, codes}
use redis_web.Text.Decimal.{to_string, int_to_string, parse_uint}
use redis_web.Text.Trim.{trim}
use redis_web.Text.Utf8.{is_utf8}
use redis_web.Resp.Reply.{okay, value_to_resp}
use redis_web.Resp.Command.{
  read_line, header, allocate, read_exact, expect_crlf, parse_arg, parse_args, parse_command,
}
use redis_web.Resp.RoundTrip.{Fits, command}
use redis_web.Http.Response.{with_cors}
use redis_web.Compat.Control.{
  Control, subscribe, has, each_target, set_insert, run_control, handle_pubsub_command,
}
use redis_web.Compat.Session.{Backend, Session, touch, idle_for}
use redis_web.Compat.Manager.{
  CompatSessionSettings, CreateSessionError, Sessions, get, remove, insert, store, new_session,
  touched, expired, sweep_expired, admit, enter, create_session, get_session, Table, Reaches,
}
use redis_web.Compat.Stream.{ParseResult, parse_next_command, limit_exceeded, run_body}
use redis_web.Compat.Pipelining.{printed, replies}
use redis_web.Compat.Bodies.{command_raw-printed, run_body-limit}
use redis_web.Compat.Chunks.{no_command}
use redis_web.Compat.Sockets.{handle_ws-split}
use redis_web.Compat.Limit.{
  create_session-limit, create_session_race, at_table, entered, state_after, next_id,
}
use redis_web.Compat.Sweeping.{get_session_finds, unless_stale}
use redis_web.Compat.Subscriptions.{handle_pubsub_command-has}
use redis_web.Compat.Handlers.{
  Message, binary, normalize_raw_session_path, resp_plain, execute_in, command_raw, handle_ws,
}

-- the state is the time, which also makes the ids
abbrev backend : Backend
backend = record {
  S = ℕ;
  clock = λ s. s;
  connect = λ s. (none, s);
  new_id = λ s. (s ∷ [], suc s);
  query = λ name args s. (ok okay, suc s);
  open_pubsub = λ s. (none, s);
  call = λ control target s. (none, s);
  delivers = λ s. true;
}

abbrev settings : CompatSessionSettings
settings = record {
  enabled = true;
  path_prefix = codes "/__compat";
  session_ttl = 10;
  max_sessions = 1;
  max_pipeline_commands = 2;
}

abbrev all_allowed : List Bytes → Bool
all_allowed args = true

abbrev ping_command : List Bytes
ping_command = codes "PING" ∷ []

ping-Fits : Fits ping_command
ping-Fits = (omega arith, (omega arith, tt))

abbrev one_session : Sessions
one_session = (codes "a", new_session (codes "a") 3) ∷ []

-- the operations on the table, open
opened : Sessions → ℕ → Option Session × Sessions
unfolding get_session sweep_expired expired idle_for touch store get remove insert admit enter
    create_session normalize_raw_session_path
opened sessions s = get_session backend settings (codes "a") sessions s

found_a :
    (get_session backend settings (normalize_raw_session_path (codes "a.raw")) one_session 5).0
    ≡ some (touch backend (new_session (codes "a") 3) 5)
unfolding opened
found_a = refl

command_raw-printed_example :
    command_raw backend all_allowed
      (some settings)
      (codes "a.raw")
      (printed (ping_command ∷ ping_command ∷ []))
      one_session
      5
    ≡ (let (out, after) =
          replies all_allowed
            (execute_in backend all_allowed)
            (ping_command ∷ ping_command ∷ [])
            (touch backend (new_session (codes "a") 3) 5, 5) in
        (
          some (with_cors (resp_plain 200 out)),
          store
              (normalize_raw_session_path (codes "a.raw"))
              (some after.0)
              (get_session backend settings
                (normalize_raw_session_path (codes "a.raw"))
                one_session
                5).1,
          after.1,
        ))
command_raw-printed_example =
    command_raw-printed backend all_allowed settings (codes "a.raw") ping_command
      (ping_command ∷ []) one_session 5 (touch backend (new_session (codes "a") 3) 5)
      (ping-Fits, (ping-Fits, tt)) (omega arith) found_a

-- one command counts one up
abbrev counting : List Bytes → ℕ → Bytes × ℕ
counting args s = (codes "+OK", suc s)

run_body-limit_example :
    run_body all_allowed counting 1
      (printed (ping_command ∷ []) ++ (value_to_resp (command ping_command) ++ codes "*"))
      7
    ≡ limit_exceeded (replies all_allowed counting (ping_command ∷ []) 7).1
run_body-limit_example =
    run_body-limit all_allowed counting 1 (ping_command ∷ []) ping_command (codes "*") 7
      (ping-Fits, tt) ping-Fits refl

-- the parser, open
parsing : Bytes → ParseResult
unfolding parse_next_command parse_command parse_args parse_arg read_line header allocate read_exact
    expect_crlf trim is_utf8 parse_uint
parsing = parse_next_command

part_waits : parse_next_command ([] ++ codes "*1\r\n$4\r\nPI") ≡ ParseResult.need_more
unfolding parsing
part_waits = refl

handle_ws-split_example :
    handle_ws all_allowed counting
      (λ m s. (true, s))
      (binary (codes "*1\r\n$4\r\nPI" ++ codes "NG\r\n") ∷ [])
      []
      7
    ≡ handle_ws all_allowed counting
        (λ m s. (true, s))
        (binary (codes "*1\r\n$4\r\nPI") ∷ binary (codes "NG\r\n") ∷ [])
        []
        7
handle_ws-split_example =
    handle_ws-split all_allowed counting (λ m s. (true, s)) [] (codes "*1\r\n$4\r\nPI")
      (codes "NG\r\n") (codes "*1\r\n$4\r\nPI") [] 7 (no_command part_waits)

create_session-limit_example :
    (length (create_session backend settings one_session 50).1 ≤ 1)
    × ((e : CreateSessionError)
        → (create_session backend settings one_session 50).0 ≡ err e
        → length (create_session backend settings one_session 50).1 ≤ 1)
create_session-limit_example = create_session-limit backend settings one_session 50 (omega arith)

kept : sweep_expired backend settings [] 5 ≡ []
unfolding opened
kept = refl

new_ids :
    (get (next_id backend settings 5) [] ≡ none)
    × ((backend.connect (state_after backend settings [] 5)).0 ≡ none)
    × (get
          (next_id backend settings (state_after backend settings [] 5))
          (entered backend settings [] 5)
        ≡ none)
unfolding opened
new_ids = (refl, refl, refl)

create_session_race_example :
    (t : Table backend settings) × Reaches backend settings (at_table backend settings [] 0 5) t
    × (length t.sessions ≡ 2)
create_session_race_example =
    create_session_race backend settings [] 5 kept refl refl new_ids.0 new_ids.1 new_ids.2

get_session_finds_example :
    (get_session backend settings (codes "a") one_session 5).0
    ≡ touched backend settings (unless_stale backend settings (get (codes "a") one_session) 5) 5
get_session_finds_example =
    get_session_finds backend settings (codes "a") one_session 5 (unfold get in (refl, tt))

abbrev never_fails : Control → Bytes → ℕ → Option Bytes × ℕ
never_fails control target s = (none, s)

confirmed :
    (handle_pubsub_command never_fails (codes "SUBSCRIBE") (codes "b" ∷ []) (codes "a" ∷ []) [] 0).0
    ≡ ok (codes "*3\r\n$9\r\nsubscribe\r\n$1\r\nb\r\n:2\r\n" ∷ [])
unfolding handle_pubsub_command run_control each_target set_insert value_to_resp to_string
    int_to_string
confirmed = refl

handle_pubsub_command-has_example :
    (has
        (codes "b")
        (handle_pubsub_command never_fails
          (codes "SUBSCRIBE")
          (codes "b" ∷ [])
          (codes "a" ∷ [])
          []
          0).1
      ≡ true)
    × (has
          (codes "b")
          (handle_pubsub_command never_fails
            (codes "SUBSCRIBE")
            (codes "b" ∷ [])
            (codes "a" ∷ [])
            []
            0).2
        ≡ false)
handle_pubsub_command-has_example =
    handle_pubsub_command-has never_fails (codes "b") (codes "SUBSCRIBE") subscribe (codes "b" ∷ [])
      (codes "a" ∷ []) [] 0 (codes "*3\r\n$9\r\nsubscribe\r\n$1\r\nb\r\n:2\r\n" ∷ []) refl confirmed

created_now : (create_session backend settings [] 5).0 ≡ ok (new_session (5 ∷ []) 6)
unfolding opened
created_now = refl

-- a client that takes two messages, and a receiver that lags in between
abbrev room_for : Message → ℕ × List Message → Bool × (ℕ × List Message)
room_for m (zero, sent) = (false, (zero, sent))
room_for m (suc n, sent) = (true, (n, m ∷ sent))
