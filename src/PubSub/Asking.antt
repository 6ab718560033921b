-- ===== src/PubSub/Asking.antt =====
-- What Redis is asked to subscribe to by crates/redis-web-runtime/src/pubsub.rs.
use redis_web.Prelude.{ℕ, ◌+◌, List, [], ◌∷◌, if◌then◌else◌, ◌≡◌}
use redis_web.Text.{Bytes, eq_bytes}
use redis_web.PubSub.{PubSubManager, contains_key}

-- how often a channel occurs
unfoldable pub occurrences : Bytes → List Bytes → ℕ
occurrences channel [] = 0
occurrences channel (c ∷ cs) = (if eq_bytes c channel then 1 else 0) + occurrences channel cs

-- A channel has been asked for, or is queued, exactly once if it has a sender, and never if not.
abbrev IsAskedOnce : PubSubManager → Type 0
IsAskedOnce m =
    (channel : Bytes)
    → occurrences channel m.asked + occurrences channel m.queue
      ≡ (if contains_key channel m.channels then 1 else 0)
