-- ===== src/Grpc/Serving.antt =====
-- How crates/redis-web-runtime/src/grpc.rs sets up the server: limits, services, address.
use redis_web.Prelude.{
  ℕ, Option, none, some, List, [], ◌∷◌, ◌++◌, if◌then◌else◌, unwrap_or, Result, err, ◌>>=◌,
}
use redis_web.Text.{Bytes, codes}
use redis_web.Config.Settings.{Config, default_http_max_request_size}

abbrev or_else {ℓ} : {A : Type ℓ} → Option A → Option A → Option A
or_else (some a) o = some a
or_else none o = o

unfoldable decoding_limit : Config → ℕ
decoding_limit config =
    unwrap_or (or_else config.grpc_config.max_decoding_message_size config.http_max_request_size)
      default_http_max_request_size

pub data Service : Type 0 where
  gateway health reflection : Service

-- the server that is started: its limits and its services, in order
pub record Served : Type 0 where
  pub max_decoding_message_size : ℕ
  pub max_encoding_message_size : Option ℕ
  pub services : List Service

-- `reflection_error` is what building the reflection service fails with, if it does; `transport` is
-- the outcome of serving. Errors are their texts.
module _ (reflection_error : Option Bytes) (transport : Served → Result {0, 0} Bytes Unit) where
  abbrev with_services : Config → List Service → Result {0, 0} Bytes Unit
  with_services config services = transport (record {
    max_decoding_message_size = decoding_limit config;
    max_encoding_message_size = config.grpc_config.max_encoding_message_size;
    services = services;
  })

  abbrev built : Option Bytes → Result {0, 0} Bytes Unit → Result {0, 0} Bytes Unit
  built none served = served
  built (some e) served = err e

  unfoldable pub serve_with_listener : Config → Result {0, 0} Bytes Unit
  unfolding decoding_limit
  serve_with_listener config =
      if config.grpc_config.enable_health_service
      then (if config.grpc_config.enable_reflection
          then built reflection_error (with_services config (gateway ∷ health ∷ reflection ∷ []))
          else with_services config (gateway ∷ health ∷ []))
      else if config.grpc_config.enable_reflection
      then built reflection_error (with_services config (gateway ∷ reflection ∷ []))
      else with_services config (gateway ∷ [])

  -- `parse_ip` is `str::parse` for an address, `bind` the listener
  module _ {Ip : Type 0} (parse_ip : Bytes → Option Ip)
      (bind : Ip → ℕ → Result {0, 0} Bytes Unit) where
    abbrev served_at : Config → Option Ip → Result {0, 0} Bytes Unit
    served_at config none = err (codes "invalid gRPC host " ++ config.grpc_config.host)
    served_at config (some ip) = bind ip config.grpc_config.port >>= λ _. serve_with_listener config

    unfoldable pub serve : Config → Result {0, 0} Bytes Unit
    serve config = served_at config (parse_ip config.grpc_config.host)
