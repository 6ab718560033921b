-- ===== src/PubSub/Fanout.antt =====
-- Every message that arrives for a channel with a subscriber goes to its sender, in order.
use redis_web.Prelude.{
  Bool, true, false, ◌||◌, Option, none, some, List, [], ◌∷◌, ◌++◌, append_assoc, append-nil,
  if◌then◌else◌, ok, err, ◌≡◌, refl, sym, ap, ◌∙◌, Bool-cases, inl, inr, arith,
}
use redis_web.Text.{Bytes, eq_bytes, eq_bytes_cases}
use redis_web.PubSub.{
  Polled, message, ended, timed_out, PubSubManager, contains_key, subscribe, drain_commands,
  fan_out, turn_on, connect_on, Event, connecting, polled, subscribing, step, run,
}

-- the payloads given to one channel's sender
abbrev pub sent_to : Bytes → List (Bytes × Bytes) → List Bytes
sent_to channel [] = []
sent_to channel ((c, payload) ∷ sent) =
    let later = sent_to channel sent in if eq_bytes c channel then payload ∷ later else later

sent_to-append :
    (channel : Bytes) (s t : List (Bytes × Bytes))
    → sent_to channel (s ++ t) ≡ sent_to channel s ++ sent_to channel t
sent_to-append channel [] t = refl
sent_to-append channel ((c, payload) ∷ s) t = elim (Bool-cases (eq_bytes c channel)) [
  | inl e ↦ rw (e) (λ i. payload ∷ sent_to-append channel s t i)
  | inr e ↦ rw (e) (sent_to-append channel s t)
]

abbrev arrives : Bytes → Polled → List Bytes → List Bytes
arrives channel (message c (ok payload)) later =
    if eq_bytes c channel then payload ∷ later else later
arrives channel _ later = later

abbrev still : Polled → Bool
still ended = false
still _ = true

-- The payloads that Redis delivers for a channel, read off the events: those of the messages that
-- arrive while there is a connection.
unfoldable pub arrivals : Bytes → Bool → List Event → List Bytes
arrivals channel connected [] = []
arrivals channel connected (connecting succeeds ∷ events) =
    arrivals channel (connected || succeeds) events
arrivals channel true (polled accepts result ∷ events) =
    arrives channel result (arrivals channel (still result) events)
arrivals channel false (polled accepts result ∷ events) = arrivals channel false events
arrivals channel connected (subscribing c ∷ events) = arrivals channel connected events

abbrev pub is_connected : Option (List Bytes) → Bool
is_connected none = false
is_connected (some _) = true

-- one more arrival, at the end of what was sent before
arrival_lem :
    (channel c payload : Bytes) (m : PubSubManager) (later : List Bytes)
    → contains_key channel m.channels ≡ true
    → sent_to channel (fan_out c payload m).sent ++ later
      ≡ sent_to channel m.sent ++ (if eq_bytes c channel then payload ∷ later else later)
unfolding fan_out
arrival_lem channel c payload m later known = elim (eq_bytes_cases c channel) [
  | inl (e, p) ↦
      rw
        (
          ap (λ x. contains_key x m.channels) p ∙ known,
          sent_to-append channel m.sent ((c, payload) ∷ []),
          e,
          append_assoc (sent_to channel m.sent) (payload ∷ []) later,
        )
        refl
  | inr (e, _) ↦ elim (Bool-cases (contains_key c m.channels)) [
    | inl k ↦
        rw
          (
            k,
            sent_to-append channel m.sent ((c, payload) ∷ []),
            e,
            append-nil (sent_to channel m.sent),
          )
          refl
    | inr k ↦ rw (k, e) refl
  ]
]

fan_out_channels :
    (c payload : Bytes) (m : PubSubManager) → (fan_out c payload m).channels ≡ m.channels
unfolding fan_out
fan_out_channels c payload m = ground arith

fan_out_connection :
    (c payload : Bytes) (m : PubSubManager) → (fan_out c payload m).connection ≡ m.connection
unfolding fan_out
fan_out_connection c payload m = ground arith

subscribe_keeps :
    (channel c : Bytes) (m : PubSubManager)
    → contains_key channel m.channels ≡ true
    → (contains_key channel (subscribe c m).channels ≡ true)
      × (((subscribe c m).sent ≡ m.sent) × ((subscribe c m).connection ≡ m.connection))
unfolding subscribe
subscribe_keeps channel c m known = ground (arith, known)

-- A step loses no sender of a channel, and what it sends there and what arrives later is what arrives
-- from this step on.
abbrev Passes : Bytes → Bool → List Event → PubSubManager → PubSubManager → Event → Type 0
Passes channel connected events m m' event =
    (contains_key channel m'.channels ≡ true)
    × (sent_to channel m'.sent ++ arrivals channel (is_connected m'.connection) events
        ≡ sent_to channel m.sent ++ arrivals channel connected (event ∷ events))

module _ (channel : Bytes) (events : List Event) (m : PubSubManager)
    (known : contains_key channel m.channels ≡ true) where
  subscribing-Passes :
      (c : Bytes)
      → Passes channel (is_connected m.connection) events m (subscribe c m) (subscribing c)
  unfolding arrivals
  subscribing-Passes c =
      let (known', (sent, connection)) = subscribe_keeps channel c m known in
      (
        known',
        λ i. sent_to channel (sent i) ++ arrivals channel (is_connected (connection i)) events,
      )

  connecting-Passes :
      (succeeds : Bool) (o : Option (List Bytes))
      → m.connection ≡ o
      → Passes channel (is_connected o) events m (connect_on succeeds o m) (connecting succeeds)
  unfolding arrivals
  connecting-Passes true none e = (known, refl)
  connecting-Passes false none e = (known, rw (e) refl)
  connecting-Passes true (some subscribed) e = (known, rw (e) refl)
  connecting-Passes false (some subscribed) e = (known, rw (e) refl)

  polled-Passes :
      (accepts : Bytes → Bool) (result : Polled) (o : Option (List Bytes))
      → m.connection ≡ o
      → Passes channel
          (is_connected o)
          events
          m
          (turn_on accepts result o m)
          (polled accepts result)
  unfolding arrivals
  polled-Passes accepts result none e = (known, rw (e) refl)
  polled-Passes accepts (message c (ok payload)) (some subscribed) e =
      let m' = record m {
        connection = some (drain_commands accepts m.queue subscribed);
        asked = m.asked ++ m.queue;
        queue = [];
      } in
      (
        rw (fan_out_channels c payload m') known,
        rw (fan_out_connection c payload m')
            (arrival_lem channel c payload m' (arrivals channel true events) known),
      )
  polled-Passes accepts (message c (err e')) (some subscribed) e = (known, refl)
  polled-Passes accepts ended (some subscribed) e = (known, refl)
  polled-Passes accepts timed_out (some subscribed) e = (known, refl)

  step-Passes :
      (event : Event) → Passes channel (is_connected m.connection) events m (step event m) event
  unfolding step
  step-Passes (connecting succeeds) = connecting-Passes succeeds m.connection refl
  step-Passes (polled accepts result) = polled-Passes accepts result m.connection refl
  step-Passes (subscribing c) = subscribing-Passes c

-- A channel that has a sender is given exactly the payloads that arrive for it from then on, in the
-- order in which they arrive, whatever other channels, subscriptions, time-outs and reconnections
-- come between.
pub run-sent_to :
    (channel : Bytes) (events : List Event) (m : PubSubManager)
    → contains_key channel m.channels ≡ true
    → sent_to channel (run events m).sent
      ≡ sent_to channel m.sent ++ arrivals channel (is_connected m.connection) events
unfolding run arrivals
run-sent_to channel [] m known = sym (append-nil (sent_to channel m.sent))
run-sent_to channel (event ∷ events) m known =
    let (known', eq) = step-Passes channel events m known event in
    run-sent_to channel events (step event m) known' ∙ eq
