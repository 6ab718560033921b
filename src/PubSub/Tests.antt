-- ===== src/PubSub/Tests.antt =====
-- A subscriber, a message, the end of the connection, and a second connection.
use redis_web.Prelude.{true, false, none, some, List, [], ◌∷◌, map, drop, length, ok, ◌≡◌, refl}
use redis_web.Text.{Bytes, codes}
use redis_web.Http.Json.{Json}
use redis_web.Format.{Params, select_jsonp_callback}
use redis_web.PubSub.{
  message, ended, PubSubManager, new_manager, Event, connecting, polled, subscribing, run,
}
use redis_web.PubSub.Stream.{payload, wants_chunked_json, message_chunk, handle_subscribe}
use redis_web.PubSub.Fanout.{sent_to, arrivals}
use redis_web.PubSub.Reconnect.{is_subscribed, run_after_ended}
use redis_web.PubSub.Delivery.{handle_subscribe_delivers}

abbrev news : Bytes
news = codes "news"

abbrev nothing_asked : Params
nothing_asked name = none

abbrev print : Json → Bytes
print json = codes "{}"

-- a message for the channel, one for another, and one that is lost
abbrev events : List Event
events =
    connecting true
    ∷ polled (λ _. true) (message news (ok (codes "a")))
    ∷ polled (λ _. true) (message (codes "other") (ok (codes "b")))
    ∷ subscribing (codes "other")
    ∷ polled (λ _. true) ended
    ∷ polled (λ _. true) (message news (ok (codes "c")))
    ∷ []

handle_subscribe_delivers_example :
    (let (response, m') =
        handle_subscribe print [] news nothing_asked
          (some (codes "application/json"))
          new_manager in
      response.chunks
        (map payload (drop (length (sent_to news m'.sent)) (sent_to news (run events m').sent))))
    ≡ map
        (message_chunk print [] news
          (select_jsonp_callback nothing_asked)
          (wants_chunked_json (some (codes "application/json"))))
        (arrivals news false events)
handle_subscribe_delivers_example =
    handle_subscribe_delivers print [] news nothing_asked (some (codes "application/json"))
      new_manager events

-- a manager whose connection subscribes to a channel
abbrev subscribed_manager : PubSubManager
subscribed_manager = record new_manager {
  channels = news ∷ [];
  connection = some (news ∷ []);
  asked = news ∷ [];
}

run_after_ended_example :
    is_subscribed news
      (run
        (polled (λ _. true) ended ∷ connecting true ∷ subscribing news ∷ events)
        subscribed_manager).connection
    ≡ false
run_after_ended_example =
    run_after_ended news (λ _. true) (connecting true ∷ subscribing news ∷ events)
      subscribed_manager refl (news ∷ []) refl
