-- ===== src/PubSub.antt =====
-- `PubSubManager` of crates/redis-web-runtime/src/pubsub.rs: one connection to Redis whose messages a
-- background task passes on to local receivers. What the client library, the clock and the subscribers
-- do is an event; a step is what the code does then.
pub mod Stream
pub mod Fanout
pub mod Asking
pub mod Reconnect
pub mod Delivery
mod Tests
use redis_web.Prelude.{
  Bool, true, false, ◌||◌, Option, none, some, List, [], ◌∷◌, ◌++◌, if◌then◌else◌, any, Result, ok,
  err,
}
use redis_web.Text.{Bytes, eq_bytes}

-- What `timeout(100 ms, stream.next())` gives: a message with its channel and what `get_payload` says,
-- the end of the stream, or the timeout.
pub data Polled : Type 0 where
  message : Bytes → Result Bytes Bytes → Polled
  ended timed_out : Polled

-- `channels` are the keys of the map of senders, `queue` the commands to the task. `connection` holds
-- the channels that the present connection subscribes to, `none` while there is no connection.
-- `asked` and `sent` record what was done: the channels that Redis was asked for, and the payloads
-- given to the sender of a channel, both in order.
pub record PubSubManager : Type 0 where
  pub channels : List Bytes
  pub queue : List Bytes
  pub connection : Option (List Bytes)
  pub asked : List Bytes
  pub sent : List (Bytes × Bytes)

-- `PubSubManager::new`
abbrev pub new_manager : PubSubManager
new_manager = record { channels = []; queue = []; connection = none; asked = []; sent = [] }

abbrev pub contains_key : Bytes → List Bytes → Bool
contains_key channel channels = any (eq_bytes channel) channels

-- The sender of a channel, made and queued for the task if there is none; the receiver that comes
-- back is attached to it.
unfoldable pub subscribe : Bytes → PubSubManager → PubSubManager
subscribe channel m =
    if contains_key channel m.channels
    then m
    else record m { channels = channel ∷ m.channels; queue = m.queue ++ channel ∷ [] }

-- The commands in the queue; `accepts` says whether Redis accepts a subscription. One that fails is
-- only logged.
unfoldable pub drain_commands : (Bytes → Bool) → List Bytes → List Bytes → List Bytes
drain_commands accepts [] subscribed = subscribed
drain_commands accepts (channel ∷ queue) subscribed =
    drain_commands accepts queue (if accepts channel then channel ∷ subscribed else subscribed)

-- a message goes to the sender of its channel, if there is one
unfoldable pub fan_out : Bytes → Bytes → PubSubManager → PubSubManager
fan_out channel payload m =
    if contains_key channel m.channels
    then record m { sent = m.sent ++ (channel, payload) ∷ [] }
    else m

abbrev pub receive : Polled → PubSubManager → PubSubManager
receive (message channel (ok payload)) m = fan_out channel payload m
receive (message channel (err e)) m = m
receive ended m = record m { connection = none }
receive timed_out m = m

-- one turn of the inner loop: the commands, then a message
abbrev pub turn_on : (Bytes → Bool) → Polled → Option (List Bytes) → PubSubManager → PubSubManager
turn_on accepts polled none m = m
turn_on accepts polled (some subscribed) m = receive polled (record m {
  connection = some (drain_commands accepts m.queue subscribed);
  asked = m.asked ++ m.queue;
  queue = [];
})

-- the outer loop, while there is no connection
abbrev pub connect_on : Bool → Option (List Bytes) → PubSubManager → PubSubManager
connect_on true none m = record m { connection = some [] }
connect_on _ _ m = m

pub data Event : Type 0 where
  connecting : Bool → Event
  polled : (Bytes → Bool) → Polled → Event
  subscribing : Bytes → Event

unfoldable pub step : Event → PubSubManager → PubSubManager
step (connecting succeeds) m = connect_on succeeds m.connection m
step (polled accepts result) m = turn_on accepts result m.connection m
step (subscribing channel) m = subscribe channel m

unfoldable pub run : List Event → PubSubManager → PubSubManager
unfolding step
run [] m = m
run (event ∷ events) m = run events (step event m)
