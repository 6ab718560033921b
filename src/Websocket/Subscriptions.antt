-- ===== src/Websocket/Subscriptions.antt =====
-- The task of `handle_socket` in crates/redis-web-runtime/src/websocket.rs that forwards the messages
-- of a channel.
use redis_web.Prelude.{Bool, true, false, List, [], ◌∷◌, ◌++◌, ◌≡◌, refl}
use redis_web.Text.{Bytes, codes}
use redis_web.Http.Json.{Json, string, object, member, no_members}
use redis_web.Compat.Handlers.{Message, text}
use redis_web.Compat.Forwarding.{if_taken}
use redis_web.PubSub.Stream.{Received, payload, lagged, closed}

-- `send` is the channel to the task that writes, `json_to_string` the `Display` of a JSON value.
module _ {X : Type 0} (json_to_string : Json → Bytes) (send : Message → X → Bool × X) where
  abbrev message_text : Bytes → Message
  message_text msg =
      text (json_to_string (object (member (codes "message") (string msg) no_members)))

  -- any error of the receiver ends the task, also that of one that lags
  unfoldable pub forward_messages : List Received → X → X
  forward_messages [] x = x
  forward_messages (payload msg ∷ received) x =
      if_taken send (send (message_text msg) x) (forward_messages received)
  forward_messages (lagged ∷ received) x = x
  forward_messages (closed ∷ received) x = x

  -- Once its receiver has missed a message, a subscriber over a WebSocket is sent no other.
  pub forward_messages-lagged :
      (before after : List Received) (x : X)
      → forward_messages (before ++ lagged ∷ after) x ≡ forward_messages before x
  unfolding forward_messages
  forward_messages-lagged [] after x = refl
  forward_messages-lagged (payload msg ∷ before) after x =
      go (send (message_text msg) x) (forward_messages-lagged before after)
    where
      go :
          (r : Bool × X)
          → ((y : X) → forward_messages (before ++ lagged ∷ after) y ≡ forward_messages before y)
          → if_taken send r (forward_messages (before ++ lagged ∷ after))
            ≡ if_taken send r (forward_messages before)
      go (true, y) same = same y
      go (false, y) same = refl
  forward_messages-lagged (lagged ∷ before) after x = refl
  forward_messages-lagged (closed ∷ before) after x = refl
