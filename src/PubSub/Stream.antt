-- ===== src/PubSub/Stream.antt =====
-- `handle_subscribe` of crates/redis-web-runtime/src/pubsub.rs: what a subscriber's receiver gives is
-- streamed as server-sent events, as lines of JSON, or as calls of a JSONP callback.
use redis_web.Prelude.{
  ℕ, Bool, true, false, ◌||◌, Option, none, some, List, [], ◌∷◌, ◌++◌, if◌then◌else◌,
}
use redis_web.Text.{Bytes, codes}
use redis_web.Text.Ascii.{to_ascii_lowercase}
use redis_web.Text.Search.{contains}
use redis_web.Http.Json.{Json, string, object, member, no_members, item, no_items}
use redis_web.Http.Response.{content_type, allow_origin, header_remove}
use redis_web.Format.{Params, select_jsonp_callback}
use redis_web.PubSub.{PubSubManager, subscribe}

-- What `recv` of a receiver gives.
pub data Received : Type 0 where
  payload : Bytes → Received
  lagged closed : Received

-- A chunk of text, or a server-sent event with its name and its data.
pub data Chunk : Type 0 where
  text : Bytes → Chunk
  sse : Option Bytes → Bytes → Chunk

-- A response whose body is a stream of chunks.
pub record Streaming : Type 0 where
  pub status : ℕ
  pub headers : List (Bytes × Bytes)
  pub chunks : List Received → List Chunk

-- the loops of the three streams: they differ in what they yield
unfoldable pub stream : (Bytes → Chunk) → Chunk → List Received → List Chunk
stream on_message on_lag [] = []
stream on_message on_lag (payload msg ∷ received) =
    on_message msg ∷ stream on_message on_lag received
stream on_message on_lag (lagged ∷ received) = on_lag ∷ stream on_message on_lag received
stream on_message on_lag (closed ∷ received) = []

-- the `Accept` header, if it is a string
unfoldable pub wants_chunked_json : Option Bytes → Bool
wants_chunked_json none = false
wants_chunked_json (some accept) =
    let lowered = to_ascii_lowercase accept in
    if contains (codes "text/event-stream") lowered
    then false
    else contains (codes "application/json") lowered
      || contains (codes "application/*+json") lowered

-- `json_to_string` is the `Display` of a JSON value; `sse_headers` are those that `Sse` sets.
module _ (json_to_string : Json → Bytes) (sse_headers : List (Bytes × Bytes)) where
  -- `{"SUBSCRIBE": [kind, channel, text]}`
  abbrev subscribe_json : Bytes → Bytes → Bytes → Bytes
  subscribe_json kind channel msg = json_to_string (
      object (
        member (codes "SUBSCRIBE")
          (Json.array (item (string kind) (item (string channel) (item (string msg) no_items))))
          no_members))

  abbrev jsonp_chunk : Bytes → Bytes → Chunk
  jsonp_chunk callback json = text (callback ++ b'(' ∷ (json ++ b')' ∷ b';' ∷ 10 ∷ []))

  abbrev json_chunk : Bytes → Chunk
  json_chunk json = text (json ++ 10 ∷ [])

  abbrev streaming : List (Bytes × Bytes) → (List Received → List Chunk) → Streaming
  streaming headers chunks = record {
    status = 200;
    headers = (allow_origin, codes "*") ∷ header_remove allow_origin headers;
    chunks = chunks;
  }

  -- what one payload becomes, by the callback and the wish for JSON
  abbrev pub message_chunk : Bytes → Option Bytes → Bool → Bytes → Chunk
  message_chunk channel (some callback) json msg =
      jsonp_chunk callback (subscribe_json (codes "message") channel msg)
  message_chunk channel none true msg = json_chunk (subscribe_json (codes "message") channel msg)
  message_chunk channel none false msg = sse none msg

  abbrev lagged_chunk : Bytes → Option Bytes → Bool → Chunk
  lagged_chunk channel (some callback) json =
      jsonp_chunk callback (subscribe_json (codes "error") channel (codes "lagged"))
  lagged_chunk channel none true =
      json_chunk (subscribe_json (codes "error") channel (codes "lagged"))
  lagged_chunk channel none false = sse (some (codes "error")) (codes "lagged")

  abbrev stream_headers : Option Bytes → Bool → List (Bytes × Bytes)
  stream_headers (some callback) json =
      (content_type, codes "application/javascript; charset=utf-8") ∷ []
  stream_headers none true = (content_type, codes "application/json; charset=utf-8") ∷ []
  stream_headers none false = sse_headers

  abbrev respond : Bytes → Option Bytes → Bool → Streaming
  respond channel callback json =
      streaming (stream_headers callback json)
        (stream (message_chunk channel callback json) (lagged_chunk channel callback json))

  unfoldable pub handle_subscribe :
      Bytes → Params → Option Bytes → PubSubManager → Streaming × PubSubManager
  handle_subscribe channel params accept m = (
    respond channel (select_jsonp_callback params) (wants_chunked_json accept),
    subscribe channel m,
  )
