-- ===== src/Compat/Pipelining.antt =====
-- What the loop of `command_raw` does with the commands of a body.
use redis_web.Prelude.{
  ℕ, suc, ◌+◌, ◌≤◌, ◌<◌, Bool, true, false, List, [], ◌∷◌, ◌++◌, ◌≡◌, ◌≢◌, refl, ◌∙◌, ap, arith,
  All, ltb, length, drop, length-drop, drop-append, append_assoc, append-nil, le→ltb,
}
use redis_web.Text.{Bytes}
use redis_web.Resp.Reply.{value_to_resp}
use redis_web.Resp.Command.{Parsed, parse_command}
use redis_web.Resp.RoundTrip.{Fits, command, parse_command-value_to_resp}
use redis_web.Resp.Progress.{parse_command_progress}
use redis_web.Compat.Stream.{ParseResult, parse_next_command, limit_exceeded, answer, pipeline}

-- a command takes at least one byte off the buffer
pub parse_next_command_shorter :
    (buffer : Bytes) (args : List Bytes) (rest : Bytes)
    → parse_next_command buffer ≡ ParseResult.command args rest
    → length rest < length buffer
unfolding parse_next_command
parse_next_command_shorter buffer args rest e = go (parse_command buffer) refl e
  where
    go :
        (p : Parsed (List Bytes × ℕ))
        → parse_command buffer ≡ p
        → (elim p [
          | Parsed.done (args, consumed) ↦ ParseResult.command args (drop consumed buffer)
          | Parsed.need_more ↦ ParseResult.need_more
          | Parsed.bad error ↦ ParseResult.invalid
          | Parsed.capacity_overflow ↦ ParseResult.panics
        ])
          ≡ ParseResult.command args rest
        → length rest < length buffer
    go (Parsed.done (args', consumed)) parsed e =
        ground
          (arith, parse_command_progress buffer args' consumed parsed, length-drop consumed buffer)
    go Parsed.need_more parsed e = cc
    go (Parsed.bad error) parsed e = cc
    go Parsed.capacity_overflow parsed e = cc

pub parse_next_command-printed :
    (args : List Bytes) (rest : Bytes)
    → Fits args
    → parse_next_command (value_to_resp (command args) ++ rest) ≡ ParseResult.command args rest
unfolding parse_next_command
parse_next_command-printed args rest fits =
    rw (parse_command-value_to_resp args rest fits, parse_next_command)
      (ap (ParseResult.command args) (drop-append (value_to_resp (command args)) rest))

pub printed-ne-nil : (args : List Bytes) (rest : Bytes) → value_to_resp (command args) ++ rest ≢ []
unfolding value_to_resp
printed-ne-nil args rest = cc

-- Commands as a client sends them in one body.
abbrev pub printed : List (List Bytes) → Bytes
printed [] = []
printed (c ∷ cs) = value_to_resp (command c) ++ printed cs

module _ {S : Type 0} (allowed : List Bytes → Bool) (execute : List Bytes → S → Bytes × S) where
  -- The answers to commands that are executed one after the other.
  abbrev pub replies : List (List Bytes) → S → Bytes × S
  replies [] s = ([], s)
  replies (c ∷ cs) s =
      let (frame, s1) = answer allowed execute c s in
      let (frames, s2) = replies cs s1 in (frame ++ frames, s2)

  module _ (max : ℕ) where
    -- one round of the loop, when there is a command
    pub pipeline-command :
        (fuel count : ℕ) (buffer : Bytes) (args : List Bytes) (rest out : Bytes) (s : S)
        → buffer ≢ []
        → parse_next_command buffer ≡ ParseResult.command args rest
        → pipeline allowed execute max (suc fuel) count buffer out s ≡ (elim (ltb max (suc count)) [
          | true ↦ limit_exceeded s
          | false ↦
              pipeline allowed execute max fuel
                (suc count)
                rest
                (out ++ (answer allowed execute args s).0)
                (answer allowed execute args s).1
        ])
    unfolding pipeline
    pipeline-command fuel count [] args rest out s ne e = absurd (ne refl)
    pipeline-command fuel count (b ∷ buffer) args rest out s ne e = rw (e, pipeline)

    -- The commands of a body are answered in order, and the loop goes on with what follows them.
    pub pipeline-printed :
        (cs : List (List Bytes)) (fuel extra count count' : ℕ) (rest out : Bytes) (s : S)
        → All Fits cs
        → fuel ≡ length cs + extra
        → count' ≡ length cs + count
        → count' ≤ max
        → pipeline allowed execute max fuel count (printed cs ++ rest) out s
          ≡ pipeline allowed execute max extra count' rest
              (out ++ (replies cs s).0)
              (replies cs s).1
    pipeline-printed [] fuel extra count count' rest out s h ef ec le =
        let same_fuel : fuel ≡ extra = omega arith in
        let same_count : count' ≡ count = omega arith in rw (same_fuel, same_count, append-nil out)
    pipeline-printed (c ∷ cs) fuel extra count count' rest out s (hc, h) ef ec le =
        let body = printed cs ++ rest in
        let frame = (answer allowed execute c s).0 in
        let s1 = (answer allowed execute c s).1 in
        let spent : fuel ≡ suc (length cs + extra) = omega arith in
        rw (spent, append_assoc (value_to_resp (command c)) (printed cs) rest)
          (pipeline-command (length cs + extra) count (value_to_resp (command c) ++ body) c body out
              s (printed-ne-nil c body) (parse_next_command-printed c body hc)
            ∙ rw (le→ltb max (suc count) (omega arith)) (
                pipeline-printed cs (length cs + extra) extra (suc count) count' rest (out ++ frame)
                  s1 h refl (omega arith) le
                ∙ ap (λ o. pipeline allowed execute max extra count' rest o (replies cs s1).1)
                    (append_assoc out frame (replies cs s1).0)))
