-- ===== src/Compat/Control.antt =====
-- `handle_pubsub_command` of crates/redis-web-runtime/src/compat.rs: the sets of channels and patterns
-- that a session is subscribed to.
use redis_web.Prelude.{
  ℕ, ◌+◌, Bool, Option, none, some, List, [], ◌∷◌, ◌++◌, if◌then◌else◌, is_empty, length, any,
  Result, ok, err,
}
use redis_web.Text.{Bytes, codes, eq_bytes}
use redis_web.Text.Decimal.{pos}
use redis_web.Resp.Reply.{array, bulk_string, int, value, no_values, value_to_resp}

-- A `HashSet<Vec<u8>>` is a list without repetitions.
abbrev pub has : Bytes → List Bytes → Bool
has t set = any (eq_bytes t) set

unfoldable pub set_insert : Bytes → List Bytes → List Bytes
set_insert t set = if has t set then set else t ∷ set

unfoldable pub set_remove : Bytes → List Bytes → List Bytes
set_remove t [] = []
set_remove t (u ∷ set) = let rest = set_remove t set in if eq_bytes t u then rest else u ∷ rest

-- the confirmation of one subscription, as RESP
abbrev confirmation : Bytes → Bytes → ℕ → Bytes
confirmation kind target count = value_to_resp (
    array
      (value (bulk_string kind) (value (bulk_string target) (value (int (pos count)) no_values))))

abbrev push_reply : Bytes → Result Bytes (List Bytes) → Result Bytes (List Bytes)
push_reply reply (ok replies) = ok (reply ∷ replies)
push_reply reply (err error) = err error

-- what `channels.iter()` or the arguments give
abbrev pub targets_of : List Bytes → List Bytes → List Bytes
targets_of args own = if is_empty args then own else args

abbrev unsupported : Bytes → Bytes
unsupported op = codes "unsupported pubsub command: " ++ op

-- The four commands. `kind` is the word of their confirmations.
pub data Control : Type 0 where
  subscribe psubscribe unsubscribe punsubscribe : Control

abbrev pub control_of : Bytes → Option Control
control_of op =
    if eq_bytes op (codes "SUBSCRIBE")
    then some subscribe
    else if eq_bytes op (codes "PSUBSCRIBE")
    then some psubscribe
    else if eq_bytes op (codes "UNSUBSCRIBE")
    then some unsubscribe
    else if eq_bytes op (codes "PUNSUBSCRIBE")
    then some punsubscribe
    else none

abbrev pub kind : Control → Bytes
kind subscribe = codes "subscribe"
kind psubscribe = codes "psubscribe"
kind unsubscribe = codes "unsubscribe"
kind punsubscribe = codes "punsubscribe"

-- The connection of the subscriptions, with its state `S`: a call either fails with a message or not.
module _ {S : Type 0} (call : Control → Bytes → S → Option Bytes × S) where
  -- The loop over the targets of one command: each is told to Redis, then `change` is made to the set
  -- that the command is about, and confirmed with the number of members of both sets.
  unfoldable pub each_target :
      Control
      → (Bytes → List Bytes → List Bytes)
      → List Bytes
      → List Bytes
      → ℕ
      → S
      → Result Bytes (List Bytes) × List Bytes × S
  each_target control change [] own others s = (ok [], own, s)
  each_target control change (t ∷ ts) own others s =
      let (failure, s1) = call control t s in
      let own1 = change t own in
      let (rest, own2, s2) = each_target control change ts own1 others s1 in
      elim failure [
        | some error ↦ (err error, own, s1)
        | none ↦ (push_reply (confirmation (kind control) t (length own1 + others)) rest, own2, s2)
      ]

  -- an unsubscription, of everything if there are no arguments
  unfoldable pub unsubscribe_from :
      Control → List Bytes → List Bytes → ℕ → S → Result Bytes (List Bytes) × List Bytes × S
  unsubscribe_from control args own others s =
      if is_empty (targets_of args own)
      then (ok (confirmation (kind control) [] (length own + others) ∷ []), own, s)
      else each_target control set_remove (targets_of args own) own others s

  abbrev subscribe_to :
      Control → Bytes → List Bytes → List Bytes → ℕ → S → Result Bytes (List Bytes) × List Bytes × S
  subscribe_to control missing args own others s =
      if is_empty args
      then (err missing, own, s)
      else each_target control set_insert args own others s

  -- The replies or an error, and the channels, the patterns and the connection afterwards.
  unfoldable pub run_control :
      Control
      → List Bytes
      → List Bytes
      → List Bytes
      → S
      → Result Bytes (List Bytes) × List Bytes × List Bytes × S
  run_control subscribe args channels patterns s =
      let missing = codes "SUBSCRIBE requires at least one channel" in
      let (replies, channels', s') =
        subscribe_to subscribe missing args channels (length patterns) s in
      (replies, channels', patterns, s')
  run_control psubscribe args channels patterns s =
      let missing = codes "PSUBSCRIBE requires at least one pattern" in
      let (replies, patterns', s') =
        subscribe_to psubscribe missing args patterns (length channels) s in
      (replies, channels, patterns', s')
  run_control unsubscribe args channels patterns s =
      let (replies, channels', s') =
        unsubscribe_from unsubscribe args channels (length patterns) s in
      (replies, channels', patterns, s')
  run_control punsubscribe args channels patterns s =
      let (replies, patterns', s') =
        unsubscribe_from punsubscribe args patterns (length channels) s in
      (replies, channels, patterns', s')

  unfoldable pub handle_pubsub_command :
      Bytes
      → List Bytes
      → List Bytes
      → List Bytes
      → S
      → Result Bytes (List Bytes) × List Bytes × List Bytes × S
  handle_pubsub_command op args channels patterns s = elim (control_of op) [
    | none ↦ (err (unsupported op), channels, patterns, s)
    | some control ↦ run_control control args channels patterns s
  ]
