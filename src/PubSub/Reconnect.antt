-- ===== src/PubSub/Reconnect.antt =====
-- What becomes of the subscriptions of crates/redis-web-runtime/src/pubsub.rs when the connection is
-- made again.
use redis_web.Prelude.{
  Bool, true, false, ◌||◌, Option, none, some, List, [], ◌∷◌, ◌++◌, if◌then◌else◌, ◌≡◌, refl, sym,
  ap, ◌∙◌, Bool-cases, inl, inr, arith,
}
use redis_web.Text.{Bytes, eq_bytes_cases}
use redis_web.PubSub.{
  Polled, ended, PubSubManager, contains_key, subscribe, drain_commands, fan_out, turn_on, Event,
  connecting, polled, subscribing, step, run,
}

-- what the present connection subscribes to
abbrev pub is_subscribed : Bytes → Option (List Bytes) → Bool
is_subscribed channel none = false
is_subscribed channel (some subscribed) = contains_key channel subscribed

-- Nobody will ask for the channel: it has a sender, and is neither queued nor subscribed to.
abbrev IsLost : Bytes → PubSubManager → Type 0
IsLost channel m =
    (contains_key channel m.channels ≡ true)
    × ((contains_key channel m.queue ≡ false) × (is_subscribed channel m.connection ≡ false))

contains_key-append :
    (channel : Bytes) (s t : List Bytes)
    → contains_key channel (s ++ t) ≡ (contains_key channel s || contains_key channel t)
contains_key-append channel [] t = refl
contains_key-append channel (c ∷ s) t = ground (arith, contains_key-append channel s t)

drain_commands_other :
    (channel : Bytes) (accepts : Bytes → Bool) (queue subscribed : List Bytes)
    → contains_key channel queue ≡ false
    → contains_key channel subscribed ≡ false
    → contains_key channel (drain_commands accepts queue subscribed) ≡ false
unfolding drain_commands
drain_commands_other channel accepts [] subscribed h k = k
drain_commands_other channel accepts (c ∷ queue) subscribed h k =
    drain_commands_other channel accepts queue (if accepts c then c ∷ subscribed else subscribed)
      (ground (arith, h)) (ground (arith, h, k))

turn_on-IsLost :
    (channel : Bytes) (accepts : Bytes → Bool) (result : Polled) (o : Option (List Bytes))
    (m : PubSubManager)
    → m.connection ≡ o
    → IsLost channel m
    → IsLost channel (turn_on accepts result o m)
unfolding fan_out
turn_on-IsLost channel accepts result none m e h = h
turn_on-IsLost channel accepts result (some subscribed) m e (known, (h, k)) = ground (
  arith,
  known,
  h,
  drain_commands_other channel accepts m.queue subscribed h
      (sym (ap (is_subscribed channel) e) ∙ k),
)

step-IsLost :
    (channel : Bytes) (event : Event) (m : PubSubManager)
    → IsLost channel m
    → IsLost channel (step event m)
unfolding step subscribe
step-IsLost channel (connecting succeeds) m h = ground (arith, h)
step-IsLost channel (polled accepts result) m h =
    turn_on-IsLost channel accepts result m.connection m refl h
step-IsLost channel (subscribing c) m h = elim (Bool-cases (contains_key c m.channels)) [
  | inl k ↦ rw (k) h
  | inr k ↦ elim (eq_bytes_cases channel c) [
    | inl (_, p) ↦ cc (h.0, k, ap (λ x. contains_key x m.channels) p)
    | inr (n, _) ↦
        rw (k, n, contains_key-append channel m.queue (c ∷ []), n, h.1.0) (h.0, (refl, h.1.1))
  ]
]

run-IsLost :
    (channel : Bytes) (events : List Event) (m : PubSubManager)
    → IsLost channel m
    → IsLost channel (run events m)
unfolding run
run-IsLost channel [] m h = h
run-IsLost channel (event ∷ events) m h =
    run-IsLost channel events (step event m) (step-IsLost channel event m h)

-- After the stream of messages has ended, no later connection subscribes to a channel that had a
-- sender before, whatever is done and however often it is subscribed to.
pub run_after_ended :
    (channel : Bytes) (accepts : Bytes → Bool) (events : List Event) (m : PubSubManager)
    → contains_key channel m.channels ≡ true
    → (subscribed : List Bytes) → m.connection ≡ some subscribed
    → is_subscribed channel (run (polled accepts ended ∷ events) m).connection ≡ false
unfolding run step
run_after_ended channel accepts events m known subscribed e =
    (run-IsLost channel events (step (polled accepts ended) m) (rw (e) (known, (refl, refl)))).1.1
