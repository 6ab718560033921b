-- ===== src/PubSub/Delivery.antt =====
-- From Redis to the subscriber, over the manager and a stream of
-- crates/redis-web-runtime/src/pubsub.rs.
use redis_web.Prelude.{
  true, Option, List, [], ◌∷◌, map, length, drop, drop-append, ◌≡◌, refl, ap, ◌∙◌, Bool-cases, inl,
  inr,
}
use redis_web.Text.{Bytes, eq_bytes_refl}
use redis_web.Http.Json.{Json}
use redis_web.Format.{Params, select_jsonp_callback}
use redis_web.PubSub.{PubSubManager, contains_key, subscribe, Event, run}
use redis_web.PubSub.Stream.{
  payload, Chunk, stream, wants_chunked_json, message_chunk, handle_subscribe,
}
use redis_web.PubSub.Fanout.{sent_to, arrivals, is_connected, run-sent_to}

subscribe-contains_key :
    (channel : Bytes) (m : PubSubManager)
    → contains_key channel (subscribe channel m).channels ≡ true
unfolding subscribe
subscribe-contains_key channel m = elim (Bool-cases (contains_key channel m.channels)) [
  | inl k ↦ rw (k) k
  | inr k ↦ rw (k, eq_bytes_refl channel) refl
]

stream-map :
    (f : Bytes → Chunk) (lag : Chunk) (msgs : List Bytes)
    → stream f lag (map payload msgs) ≡ map f msgs
unfolding stream
stream-map f lag [] = refl
stream-map f lag (msg ∷ msgs) = λ i. f msg ∷ stream-map f lag msgs i

subscribe_connection :
    (channel : Bytes) (m : PubSubManager) → (subscribe channel m).connection ≡ m.connection
unfolding subscribe
subscribe_connection channel m = elim (Bool-cases (contains_key channel m.channels)) [
  | inl k ↦ rw (k) refl
  | inr k ↦ rw (k) refl
]

module _ (json_to_string : Json → Bytes) (sse_headers : List (Bytes × Bytes)) where
  -- A subscriber whose receiver has missed nothing is streamed one chunk for each payload that
  -- Redis delivers for its channel after the request, in that order, in the form that the request
  -- asked for, whatever else happens to the manager.
  pub handle_subscribe_delivers :
      (channel : Bytes) (params : Params) (accept : Option Bytes) (m : PubSubManager)
      (events : List Event)
      → (let (response, m') = handle_subscribe json_to_string sse_headers channel params accept m in
          response.chunks (
            map payload
              (drop (length (sent_to channel m'.sent)) (sent_to channel (run events m').sent))))
        ≡ map
            (message_chunk json_to_string sse_headers channel
              (select_jsonp_callback params)
              (wants_chunked_json accept))
            (arrivals channel (is_connected m.connection) events)
  unfolding handle_subscribe
  handle_subscribe_delivers channel params accept m events =
      stream-map _ _ _
      ∙ ap
          (map (
            message_chunk json_to_string sse_headers channel (select_jsonp_callback params)
              (wants_chunked_json accept)))
          (ap (drop (length (sent_to channel (subscribe channel m).sent)))
              (run-sent_to channel events (subscribe channel m) (subscribe-contains_key channel m))
            ∙ (drop-append (sent_to channel (subscribe channel m).sent) _
                ∙ ap (λ o. arrivals channel (is_connected o) events)
                    (subscribe_connection channel m)))
