-- ===== src/Lib.antt =====
-- Verification of redis-web, the HTTP and WebSocket gateway to Redis.
--
-- A request of HTTP comes in at a handler of crates/redis-web-runtime/src/handler.rs. Its path, query and
-- body are parsed into a command, an output format and options (crates/redis-web-core/src/request.rs),
-- the access list is asked (crates/redis-web-core/src/acl.rs), the command is executed by the backend, and
-- the reply is formatted (crates/redis-web-core/src/format.rs, or as RESP by
-- crates/redis-web-core/src/resp.rs). The raw endpoints read commands in RESP from a buffer of bytes.
--
-- Files:
--   Prelude      numbers, Boolean tests, lists, options and results, with their lemmas
--   Text         bytes: ASCII case, searches, decimal numbers, trimming, UTF-8
--   Http         JSON values; responses and their header map
--   Resp         resp.rs: Resp.Reply is value_to_resp, Resp.Command is parse_command, line by line
--   Format       format.rs: the JSONP callback, the tables of suffixes, and Format.Reply for the bodies
--   Request      request.rs and interfaces.rs: parse_http_request; Request.Percent is the decoder
--   Acl          acl.rs: Acl::new, check and check_auth
--   Handler      handler.rs: Handler.Convert has the conversions of replies, Handler.Process has
--                process_request and the handlers
--   Compat       compat.rs of crates/redis-web-runtime/src: Compat.Control is handle_pubsub_command,
--                Compat.Session the execution of a command, Compat.Manager the table of sessions,
--                Compat.Forwarding the frames pushed to clients, Compat.Stream the loops that read commands, Compat.Handlers the handlers
--   Websocket    websocket.rs of crates/redis-web-runtime/src: the loops over messages, and the task
--                that forwards a channel
--   Config       config.rs of crates/redis-web-core/src: Config.Env is expand_env_vars_in_json,
--                Config.Settings the struct Config and loading, Config.Documents what is written
--   Redis        redis.rs and executor.rs of crates/redis-web-runtime/src: Redis.Connection the
--                settings of a connection, Redis.Pools the registry, Redis.Executor the executor
--   PubSub       pubsub.rs of crates/redis-web-runtime/src: the manager and its task; PubSub.Stream is
--                handle_subscribe
--   Grpc         grpc.rs of crates/redis-web-runtime/src: Grpc.Value the conversion of replies,
--                Grpc.Stream is execute_stream, Grpc.Serving the limits and services
--   Startup      lib.rs of crates/redis-web-compat/src and crates/redis-web/src, and server.rs of
--                crates/redis-web-runtime/src: Startup.Launch is run and run_grpc, Startup.Main the mains,
--                Startup.Server build_runtime, Startup.Routes the router
--   Gateway      the handlers of HTTP and gRPC over one executor, as server.rs puts them together,
--                one call after the other
--   Bench        crates/redis-web-bench/src: Bench.Spec is spec.rs, Bench.Model the results of model.rs,
--                Bench.Rows, Bench.Graphs and Bench.Report are report.rs, over a record of the
--                operations on floats that it uses
-- Text is a list of bytes, as numbers; strings of the source are its UTF-8 texts. The definitions keep
-- the names of the source; helpers between them name the pieces of a long function.
--
-- Results are values: `Result` for Rust's Result, `Parsed` for the three outcomes of parse_command and
-- the panic of an allocation past isize::MAX bytes, and `none` in place of a response for a panic of a
-- handler. A handler takes and gives back the state of the backend, a parameter of `Host` along with
-- what other crates do: Base64, networks, JSON text, SHA-1 and the test of a header value. Loops are
-- recursion on lists or on the count that the loop runs to. The loops of compat.rs and websocket.rs
-- that read commands off a buffer run on fuel, one unit more than the buffer has bytes: each command takes a byte.
--
-- Sessions are a list of ids with their sessions, the clock and the Redis server are a state of `Backend`,
-- and `Step` is what one request does to the table between those of others. The channels that carry frames
-- to a socket are a function `send` that tells whether the frame was taken; the task of a session's
-- subscriptions answers each request before the next.
--
-- A process starts at Startup.Launch with the configuration of Config and builds the parts of Redis,
-- PubSub and Compat. The executor of Redis is what the handlers of Handler and Grpc call `execute`, and
-- the subscriptions of PubSub feed the streams of HTTP and gRPC.
--
-- Concurrency is explicit. In Redis.Pools a task has six phases, in two of which it holds a guard of the
-- lock of the map, and waits where the lock is taken; `run` takes a schedule, the list of the tasks in the
-- order in which they run, with every interleaving. The lock gives a guard whenever it is free: that it
-- queues those that wait for it only takes schedules away. In
-- PubSub an event is what the library, the clock or a subscriber does next, and `run` takes their list. A
-- stream of Grpc takes the number of messages after which the client is gone, and how many more its channel
-- of 32 has accepted then. A pool is an object with an
-- identity, its number, which its clones share.
--
-- Not modelled: the runtime's threads, sockets, TLS and logging; the libraries for HTTP, gRPC, Redis and
-- channels, which are parameters; the bound of 100 on the queue of PubSub and the lag of its receivers,
-- which are what a receiver gives; the benchmarks' runs, which start processes and measure time;
-- and the vendored C library.
pub mod Acl
pub mod Bench
pub mod Compat
pub mod Config
pub mod Format
pub mod Gateway
pub mod Grpc
pub mod Handler
pub mod Http
pub mod Prelude
pub mod PubSub
pub mod Redis
pub mod Request
pub mod Resp
pub mod Startup
pub mod Text
pub mod Websocket
