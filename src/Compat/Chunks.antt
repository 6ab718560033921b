-- ===== src/Compat/Chunks.antt =====
-- The loop of `handle_ws` over its buffer: it ends, and it does not matter how the bytes of the commands
-- are split into messages.
use redis_web.Prelude.{
  ℕ, zero, suc, ◌≤◌, ◌<◌, Bool, true, false, List, [], ◌∷◌, ◌++◌, ◌≡◌, ◌≢◌, refl, ◌∙◌, ap, arith,
  length, drop,
}
use redis_web.Text.{Bytes}
use redis_web.Resp.Command.{Parsed, parse_command}
use redis_web.Resp.Progress.{parse_command_progress}
use redis_web.Resp.Streaming.{parse_command-append}
use redis_web.Compat.Stream.{
  ParseResult, parse_next_command, Drained, waiting, answer, drain_buffer, drain,
}
use redis_web.Compat.Pipelining.{parse_next_command_shorter}

drop_more :
    (n : ℕ) (buffer more : Bytes)
    → n ≤ length buffer
    → drop n (buffer ++ more) ≡ drop n buffer ++ more
drop_more zero buffer more h = refl
drop_more (suc n) [] more h = absurd (omega arith)
drop_more (suc n) (b ∷ buffer) more h = drop_more n buffer more (omega arith)

-- a command that is there is read alike with more bytes behind it
parse_next_command_more :
    (buffer more : Bytes) (args : List Bytes) (rest : Bytes)
    → args ≢ []
    → parse_next_command buffer ≡ ParseResult.command args rest
    → parse_next_command (buffer ++ more) ≡ ParseResult.command args (rest ++ more)
unfolding parse_next_command
parse_next_command_more buffer more args rest ne e = go (parse_command buffer) refl e
  where
    go :
        (p : Parsed (List Bytes × ℕ))
        → parse_command buffer ≡ p
        → (elim p [
          | Parsed.done (args, consumed) ↦ ParseResult.command args (drop consumed buffer)
          | Parsed.need_more ↦ ParseResult.need_more
          | Parsed.bad error ↦ ParseResult.invalid
          | Parsed.capacity_overflow ↦ ParseResult.panics
        ])
          ≡ ParseResult.command args rest
        → parse_next_command (buffer ++ more) ≡ ParseResult.command args (rest ++ more)
    go (Parsed.done (args', consumed)) parsed e =
        let same_args : args' ≡ args = cc e in
        let same_rest : drop consumed buffer ≡ rest = cc e in
        let kept = parse_command-append buffer more args' consumed (rw same_args ne) parsed in
        rw (kept, parse_next_command)
          (rw (
            drop_more consumed buffer more (parse_command_progress buffer args' consumed parsed).1,
            same_args,
            same_rest,
          ))
    go Parsed.need_more parsed e = cc e
    go (Parsed.bad error) parsed e = cc e
    go Parsed.capacity_overflow parsed e = cc e

-- `buffer` holds some whole commands, none of them empty, and then `rest`, which is no whole command.
pub data Holds : Bytes → Bytes → Type 0 where
  no_command :
      {buffer : Bytes} → parse_next_command buffer ≡ ParseResult.need_more → Holds buffer buffer
  a_command :
      {buffer rest last : Bytes} (args : List Bytes)
      → args ≢ []
      → parse_next_command buffer ≡ ParseResult.command args rest
      → Holds rest last
      → Holds buffer last

module _ {S : Type 0} (allowed : List Bytes → Bool) (execute : List Bytes → S → Bytes × S)
    (send : Bytes → S → Bool × S) where
  -- The loop on fuel gives the same for any fuel above the length of the buffer.
  drain_buffer-fuel :
      (f g : ℕ) (buffer : Bytes) (s : S)
      → length buffer < f
      → length buffer < g
      → drain_buffer allowed execute send f buffer s ≡ drain_buffer allowed execute send g buffer s
  unfolding drain_buffer
  drain_buffer-fuel zero g buffer s hf hg = absurd (omega arith)
  drain_buffer-fuel (suc f) zero buffer s hf hg = absurd (omega arith)
  drain_buffer-fuel (suc f) (suc g) buffer s hf hg =
      go (λ rest s1 lf lg. drain_buffer-fuel f g rest s1 lf lg) (parse_next_command buffer) refl
    where
      go :
          ((rest : Bytes) (s1 : S)
            → length rest < f
            → length rest < g
            → drain_buffer allowed execute send f rest s1
              ≡ drain_buffer allowed execute send g rest s1)
          → (p : ParseResult) → parse_next_command buffer ≡ p
          → drain_buffer allowed execute send (suc f) buffer s
            ≡ drain_buffer allowed execute send (suc g) buffer s
      go again (ParseResult.command args rest) e =
          let shorter = parse_next_command_shorter buffer args rest e in
          let same = λ (s1 : S). again rest s1 (omega (arith, shorter)) (omega (arith, shorter)) in
          rw (e, drain_buffer)
            (ap
              (λ (next : S → Drained S).
                let (frame, s1) = answer allowed execute args s in
                let (delivered, s2) = send frame s1 in
                elim delivered as (λ _. Drained S) [ true ↦ next s2 | false ↦ Drained.returned s2 ])
              (λ i s1. same s1 i))
      go again ParseResult.need_more e = rw (e, drain_buffer)
      go again ParseResult.invalid e = rw (e, drain_buffer)
      go again ParseResult.panics e = rw (e, drain_buffer)

  drain-command :
      (buffer : Bytes) (args : List Bytes) (rest : Bytes) (s : S)
      → parse_next_command buffer ≡ ParseResult.command args rest
      → drain allowed execute send buffer s ≡ (
          let (frame, s1) = answer allowed execute args s in
          let (delivered, s2) = send frame s1 in
          elim delivered as (λ _. Drained S) [
            | true ↦ drain allowed execute send rest s2
            | false ↦ Drained.returned s2
          ])
  unfolding drain drain_buffer
  drain-command buffer args rest s e =
      let shorter = parse_next_command_shorter buffer args rest e in
      rw (e, drain_buffer)
        (ap
          (λ (next : S → Drained S).
            let (frame, s1) = answer allowed execute args s in
            let (delivered, s2) = send frame s1 in
            elim delivered as (λ _. Drained S) [ true ↦ next s2 | false ↦ Drained.returned s2 ])
          (λ i s1.
            drain_buffer-fuel (length buffer) (suc (length rest)) rest s1 shorter (omega arith) i))

  drain-no_command :
      (buffer : Bytes) (s : S)
      → parse_next_command buffer ≡ ParseResult.need_more
      → drain allowed execute send buffer s ≡ waiting buffer s
  unfolding drain drain_buffer
  drain-no_command buffer s e = rw (e, drain_buffer)

  -- A message that arrives when the loop is done with those before it.
  abbrev pub resume : Bytes → Drained S → Drained S
  resume more (waiting buffer s) = drain allowed execute send (buffer ++ more) s
  resume more (Drained.cleared s) = drain allowed execute send more s
  resume more (Drained.returned s) = Drained.returned s
  resume more (Drained.crashed s) = Drained.crashed s
  resume more (Drained.out_of_fuel s) = Drained.out_of_fuel s

  -- If a message holds whole commands, none of them empty, and then a part of one that the parser
  -- waits for, then it has the same effect to receive further bytes in the same message or in the next one:
  -- the same commands are executed in the same order, and the same frames are sent.
  pub drain-append :
      (buffer last more : Bytes) (s : S)
      → Holds buffer last
      → drain allowed execute send (buffer ++ more) s
        ≡ resume more (drain allowed execute send buffer s)
  drain-append buffer last more s (no_command e) = rw (drain-no_command buffer s e)
  drain-append buffer last more s (a_command {rest = rest} args ne e h) =
      let (frame, s1) = answer allowed execute args s in
      drain-command (buffer ++ more) args (rest ++ more) s
        (parse_next_command_more buffer more args rest ne e)
      ∙ rw (drain-command buffer args rest s e)
          (go (send frame s1).0 (send frame s1).1 (λ s2. drain-append rest last more s2 h))
    where
      go :
          (d : Bool) (s2 : S)
          → ((s2 : S)
              → drain allowed execute send (rest ++ more) s2
                ≡ resume more (drain allowed execute send rest s2))
          → (elim d as (λ _. Drained S) [
            | true ↦ drain allowed execute send (rest ++ more) s2
            | false ↦ Drained.returned s2
          ])
            ≡ resume more (elim d as (λ _. Drained S) [
              | true ↦ drain allowed execute send rest s2
              | false ↦ Drained.returned s2
            ])
      go true s2 same = same s2
      go false s2 same = refl

  drain_buffer-ends :
      (fuel : ℕ) (buffer : Bytes) (s s' : S)
      → length buffer < fuel
      → drain_buffer allowed execute send fuel buffer s ≢ Drained.out_of_fuel s'
  unfolding drain_buffer
  drain_buffer-ends zero buffer s s' h = absurd (omega arith)
  drain_buffer-ends (suc fuel) buffer s s' h =
      go (λ rest s1 less. drain_buffer-ends fuel rest s1 s' less) (parse_next_command buffer) refl
    where
      after :
          (d : Bool) (fuel : ℕ) (rest : Bytes) (s2 : S)
          → drain_buffer allowed execute send fuel rest s2 ≢ Drained.out_of_fuel s'
          → (elim d as (λ _. Drained S) [
            | true ↦ drain_buffer allowed execute send fuel rest s2
            | false ↦ Drained.returned s2
          ])
            ≢ Drained.out_of_fuel s'
      after true fuel rest s2 ends = ends
      after false fuel rest s2 ends = cc

      go :
          ((rest : Bytes) (s1 : S)
            → length rest < fuel
            → drain_buffer allowed execute send fuel rest s1 ≢ Drained.out_of_fuel s')
          → (p : ParseResult) → parse_next_command buffer ≡ p
          → drain_buffer allowed execute send (suc fuel) buffer s ≢ Drained.out_of_fuel s'
      go again (ParseResult.command args rest) e =
          let (frame, s1) = answer allowed execute args s in
          let (delivered, s2) = send frame s1 in
          rw (e, drain_buffer)
            (after delivered fuel rest s2
              (again rest s2 (omega (arith, parse_next_command_shorter buffer args rest e))))
      go again ParseResult.need_more e = rw (e, drain_buffer) cc
      go again ParseResult.invalid e = rw (e, drain_buffer) cc
      go again ParseResult.panics e = rw (e, drain_buffer) cc

  -- Whatever the buffer, the loop over it comes to an end: one round for each byte, and one, is enough.
  drain-ends :
      (buffer : Bytes) (s s' : S) → drain allowed execute send buffer s ≢ Drained.out_of_fuel s'
  unfolding drain
  drain-ends buffer s s' = drain_buffer-ends (suc (length buffer)) buffer s s' (omega arith)
