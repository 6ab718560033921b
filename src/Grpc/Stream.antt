-- ===== src/Grpc/Stream.antt =====
-- `execute_stream` of crates/redis-web-runtime/src/grpc.rs: the task that answers the items of a
-- stream. A client takes a number of messages before it goes away; the channel to it has then room for
-- some more, and a `send` after that fails.
use redis_web.Prelude.{
  ℕ, zero, suc, Option, none, some, List, [], ◌∷◌, map, take, length, Result, ok, err, ◌≡◌, refl,
  ap, ◌+◌, ◌≤◌, ◌<◌, arith, ◌∙◌,
}
use redis_web.Text.{Bytes, codes}
use redis_web.Acl.{AuthContext}
use redis_web.Request.{ExecutableCommand}
use redis_web.Handler.Process.{
  CommandExecutionError, service_unavailable, execution_failed, Execution, Host, AppState,
}
use redis_web.Grpc.{CommandRequest, command_from_proto, authorize}
use redis_web.Grpc.Value.{Status, RedisValue, invalid_argument, redis_value_to_proto}

-- `mpsc::channel(32)`
abbrev pub channel_capacity : ℕ
channel_capacity = 32

pub record StreamCommandRequest : Type 0 where
  pub correlation_id : Bytes
  pub command : Option CommandRequest

-- The kind is a number: 0 unspecified, 1 service unavailable, 2 execution failed.
pub record CommandError : Type 0 where
  pub error_kind : ℕ
  pub message : Bytes

-- `result` is always set: a value or an error.
pub record StreamCommandReply : Type 0 where
  pub correlation_id : Bytes
  pub result : Result CommandError RedisValue

abbrev command_error_to_stream_error : CommandExecutionError → CommandError
command_error_to_stream_error (service_unavailable message) = record {
  error_kind = 1;
  message = message;
}
command_error_to_stream_error (execution_failed message) = record {
  error_kind = 2;
  message = message;
}

abbrev pub status_to_stream_error : Status → CommandError
status_to_stream_error status = record { error_kind = 0; message = status.message }

abbrev missing_command : Status
missing_command = record {
  code = invalid_argument;
  message = codes "stream request is missing command";
}

abbrev pub converted : Result Status RedisValue → Result CommandError RedisValue
converted (ok value) = ok value
converted (err status) = err (status_to_stream_error status)

abbrev pub streamed : Execution → Result CommandError RedisValue
streamed (ok value) = converted (redis_value_to_proto value)
streamed (err error) = err (command_error_to_stream_error error)

module _ (host : Host) (localhost : host.Ip) (state : AppState host.Net)
    (auth : AuthContext host.Ip) where
  abbrev stream_authorized :
      Result {0, 0} Status Unit
      → ExecutableCommand
      → host.S
      → Result CommandError RedisValue × host.S
  stream_authorized (err status) command s = (err (status_to_stream_error status), s)
  stream_authorized (ok _) command s =
      let (execution, s') = host.execute command s in (streamed execution, s')

  abbrev pub stream_command :
      Result Status ExecutableCommand → host.S → Result CommandError RedisValue × host.S
  stream_command (err status) s = (err (status_to_stream_error status), s)
  stream_command (ok command) s =
      stream_authorized (authorize host localhost state auth command.command_name) command s

  abbrev pub stream_result :
      Option CommandRequest → host.S → Result CommandError RedisValue × host.S
  stream_result none s = (err (status_to_stream_error missing_command), s)
  stream_result (some request) s =
      stream_command (command_from_proto state.default_database request) s

  -- the reply to one item
  unfoldable pub stream_reply : StreamCommandRequest → host.S → StreamCommandReply × host.S
  stream_reply item s =
      let (result, s') = stream_result item.command s in
      (record { correlation_id = item.correlation_id; result = result }, s')

  -- The task, over the number of messages that the channel accepts: what is put into the channel, and
  -- the backend's state after the last item that is read.
  unfoldable pub answer_items :
      List (Result Status StreamCommandRequest)
      → ℕ
      → host.S
      → List (Result Status StreamCommandReply) × host.S
  answer_items [] accepted s = ([], s)
  answer_items (err status ∷ items) zero s = ([], s)
  answer_items (err status ∷ items) (suc accepted) s = (err status ∷ [], s)
  answer_items (ok item ∷ items) zero s = let (reply, s') = stream_reply item s in ([], s')
  answer_items (ok item ∷ items) (suc accepted) s =
      let (reply, s') = stream_reply item s in
      let (replies, s'') = answer_items items accepted s' in (ok reply ∷ replies, s'')

  -- The messages that the client takes, and the backend's state. `buffered` is how many more the
  -- channel has accepted when the client goes away, `channel_capacity` at most: the task runs ahead of
  -- the client by that much.
  unfoldable pub execute_stream :
      List (Result Status StreamCommandRequest)
      → ℕ
      → ℕ
      → host.S
      → List (Result Status StreamCommandReply) × host.S
  execute_stream items taken buffered s =
      let (messages, s') = answer_items items (taken + buffered) s in (take taken messages, s')

  -- the replies to items one after the other, as a specification
  unfoldable replies_in_order :
      List StreamCommandRequest → host.S → List StreamCommandReply × host.S
  replies_in_order [] s = ([], s)
  replies_in_order (item ∷ items) s =
      let (reply, s') = stream_reply item s in
      let (replies, s'') = replies_in_order items s' in (reply ∷ replies, s'')

  -- A client that takes all messages gets one reply for each item, in order, each computed after the
  -- commands of the earlier items were executed.
  answer_items-replies_in_order :
      (items : List StreamCommandRequest) (accepted : ℕ) (s : host.S)
      → length items ≤ accepted
      → answer_items (map ok items) accepted s
        ≡ (map ok (replies_in_order items s).0, (replies_in_order items s).1)
  unfolding answer_items replies_in_order
  answer_items-replies_in_order [] accepted s h = refl
  answer_items-replies_in_order (item ∷ items) zero s h = ground (arith, h)
  answer_items-replies_in_order (item ∷ items) (suc accepted) s h =
      rw (answer_items-replies_in_order items accepted (stream_reply item s).1 (omega (arith, h)))
        refl

  take-replies :
      (items : List StreamCommandRequest) (taken : ℕ) (s : host.S)
      → length items ≤ taken
      → take {A = Result Status StreamCommandReply} taken (map ok (replies_in_order items s).0)
        ≡ map ok (replies_in_order items s).0
  unfolding replies_in_order
  take-replies [] zero s h = refl
  take-replies [] (suc taken) s h = refl
  take-replies (item ∷ items) zero s h = ground (arith, h)
  take-replies (item ∷ items) (suc taken) s h =
      ap (λ messages. ok (stream_reply item s).0 ∷ messages)
        (take-replies items taken (stream_reply item s).1 (omega (arith, h)))

  execute_stream-replies_in_order :
      (items : List StreamCommandRequest) (taken buffered : ℕ) (s : host.S)
      → length items ≤ taken
      → execute_stream (map ok items) taken buffered s
        ≡ (map ok (replies_in_order items s).0, (replies_in_order items s).1)
  unfolding execute_stream
  execute_stream-replies_in_order items taken buffered s h =
      rw
        (
          answer_items-replies_in_order items (taken + buffered) s (omega (arith, h)),
          take-replies items taken s h,
        )
        refl

  replies_in_order_ids :
      (items : List StreamCommandRequest) (s : host.S)
      → map (λ reply. reply.correlation_id) (replies_in_order items s).0
        ≡ map (λ item. item.correlation_id) items
  unfolding replies_in_order stream_reply
  replies_in_order_ids [] s = refl
  replies_in_order_ids (item ∷ items) s =
      λ i. item.correlation_id ∷ replies_in_order_ids items (stream_reply item s).1 i

  abbrev pub id_of : Result Status StreamCommandReply → Option Bytes
  id_of (ok reply) = some reply.correlation_id
  id_of (err _) = none

  map-id_of :
      (replies : List StreamCommandReply)
      → map id_of (map ok replies) ≡ map some (map (λ reply. reply.correlation_id) replies)
  map-id_of [] = refl
  map-id_of (reply ∷ replies) = λ i. some reply.correlation_id ∷ map-id_of replies i

  -- Every item of a stream is answered: a client that takes as many messages as it sent items gets
  -- exactly one reply with the correlation id of each, in the order of the items, whether its command
  -- is missing, refused, failed or executed.
  pub execute_stream_answers :
      (items : List StreamCommandRequest) (taken buffered : ℕ) (s : host.S)
      → length items ≤ taken
      → map id_of (execute_stream (map ok items) taken buffered s).0
        ≡ map some (map (λ item. item.correlation_id) items)
  execute_stream_answers items taken buffered s h =
      rw (execute_stream-replies_in_order items taken buffered s h)
        (map-id_of (replies_in_order items s).0 ∙ ap (map some) (replies_in_order_ids items s))

  answer_items-take :
      (items : List (Result Status StreamCommandRequest)) (accepted n : ℕ) (s : host.S)
      → accepted < n
      → answer_items items accepted s ≡ answer_items (take n items) accepted s
  unfolding answer_items
  answer_items-take items accepted zero s h = ground (arith, h)
  answer_items-take [] accepted (suc n) s h = refl
  answer_items-take (err status ∷ items) zero (suc n) s h = refl
  answer_items-take (err status ∷ items) (suc accepted) (suc n) s h = refl
  answer_items-take (ok item ∷ items) zero (suc n) s h = refl
  answer_items-take (ok item ∷ items) (suc accepted) (suc n) s h =
      rw (answer_items-take items accepted n (stream_reply item s).1 (omega (arith, h))) refl

  -- A task runs ahead of its client by no more than the channel holds: what a stream does depends
  -- only on as many items as the client takes messages, 32 more whose replies the channel may hold, and
  -- one whose reply is not accepted.
  pub execute_stream-take :
      (items : List (Result Status StreamCommandRequest)) (taken buffered : ℕ) (s : host.S)
      → buffered ≤ channel_capacity
      → execute_stream items taken buffered s
        ≡ execute_stream (take (taken + channel_capacity + 1) items) taken buffered s
  unfolding execute_stream
  execute_stream-take items taken buffered s h =
      ap (λ r. (take taken r.0, r.1))
        (answer_items-take items (taken + buffered) (taken + channel_capacity + 1) s
          (omega (arith, h)))
