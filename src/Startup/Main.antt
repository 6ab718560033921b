-- ===== src/Startup/Main.antt =====
-- The asynchronous mains of crates/redis-web/src/lib.rs: how a process ends.
use redis_web.Prelude.{ℕ, ◌++◌, Result, ok, err, ◌≡◌, refl, inl, inr, arith, Result-cases}
use redis_web.Text.{Bytes, codes}
use redis_web.Http.Json.{Json}
use redis_web.Config.Settings.{Config, TransportMode, rest, grpc}
use redis_web.Startup.Launch.{Launched, ended, serves, if_rest, if_grpc}

-- The process exits with a status and a message, or its main returns.
pub data Outcome : Type 0 where
  exited : ℕ → Bytes → Outcome
  main_returned : Outcome

-- the status of the process
abbrev pub status_of : Outcome → ℕ
status_of (exited status message) = status
status_of main_returned = 0

-- what a program does with its configuration
abbrev pub serving_of : TransportMode → (TransportMode → Config → Launched)
serving_of rest = if_rest
serving_of grpc = if_grpc

-- `build` is `build_runtime`, with the texts of its errors; `serve_http` is the router served on the
-- configured address, `serve_grpc` the gateway.
module _ {Components : Type 0} (build : Config → Result Bytes Components)
    (serve_http serve_grpc : Config → Components → Result {0, 0} Bytes Unit) where
  abbrev after_serving : Bytes → Result {0, 0} Bytes Unit → Outcome
  after_serving what (ok _) = main_returned
  after_serving what (err e) =
      exited 1 (codes "Failed to serve " ++ (what ++ (codes " traffic: " ++ e)))

  abbrev after_build :
      Bytes → (Components → Result {0, 0} Bytes Unit) → Result Bytes Components → Outcome
  after_build what serving (ok components) = after_serving what (serving components)
  after_build what serving (err e) =
      exited 1 (codes "Server startup failed during runtime build: " ++ e)

  unfoldable pub async_main_http : Config → Outcome
  async_main_http config = after_build (codes "HTTP") (serve_http config) (build config)

  unfoldable pub async_main_grpc : Config → Outcome
  async_main_grpc config = after_build (codes "gRPC") (serve_grpc config) (build config)

  -- from the launch to the end of the process
  abbrev pub end_of : Launched → Outcome
  end_of (ended status message) = exited status message
  end_of (serves rest level workers config) = async_main_http config
  end_of (serves grpc level workers config) = async_main_grpc config

  -- the server of a transport
  abbrev pub serve : TransportMode → Config → Components → Result {0, 0} Bytes Unit
  serve rest = serve_http
  serve grpc = serve_grpc

  -- the parts of a server were built, and it ended without an error
  abbrev pub EndedWell : TransportMode → Config → Type 0
  EndedWell mode config =
      (components : Components) × ((build config ≡ ok components)
        × (serve mode config components ≡ ok _))

  after_build_zero :
      (what : Bytes) (serving : Components → Result {0, 0} Bytes Unit) (r : Result Bytes Components)
      → status_of (after_build what serving r) ≡ 0
      → (components : Components) × ((r ≡ ok components) × (serving components ≡ ok _))
  after_build_zero what serving (err e) h = ground (arith, h)
  after_build_zero what serving (ok components) h = elim (Result-cases (serving components)) [
    | inl (e, f) ↦ absurd (omega (arith, rw (f) at h))
    | inr (_, f) ↦ (components, (refl, f))
  ]

  pub serving_zero :
      (mine mode : TransportMode) (config : Config)
      → status_of (end_of (serving_of mine mode config)) ≡ 0
      → (mode ≡ mine) × EndedWell mine config
  unfolding async_main_http async_main_grpc
  serving_zero rest rest config h =
      (refl, after_build_zero (codes "HTTP") (serve_http config) (build config) h)
  serving_zero rest grpc config h = ground (arith, h)
  serving_zero grpc rest config h = ground (arith, h)
  serving_zero grpc grpc config h =
      (refl, after_build_zero (codes "gRPC") (serve_grpc config) (build config) h)
