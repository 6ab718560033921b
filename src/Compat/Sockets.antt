-- ===== src/Compat/Sockets.antt =====
-- A session over a WebSocket: the split of its bytes into messages.
use redis_web.Prelude.{Bool, List, ◌∷◌, ◌++◌, ◌≡◌, refl, sym, ◌∙◌, ap, append_assoc}
use redis_web.Text.{Bytes}
use redis_web.Compat.Stream.{Drained, waiting, cleared, returned, crashed, drain}
use redis_web.Compat.Chunks.{Holds, resume, drain-append}
use redis_web.Compat.Handlers.{Message, binary, send_frame, take_message, after_message, handle_ws}

module _ {X : Type 0} (allowed : List Bytes → Bool) (execute : List Bytes → X → Bytes × X)
    (send : Message → X → Bool × X) where
  -- If the bytes so far hold whole commands, none of them empty, and then a part of one that the
  -- parser waits for, then further bytes of the same message can as well come in a message of their own: the
  -- connection does and answers the same from there on.
  pub handle_ws-split :
      (buffer first second last : Bytes) (ms : List Message) (x : X)
      → Holds (buffer ++ first) last
      → handle_ws allowed execute send (binary (first ++ second) ∷ ms) buffer x
        ≡ handle_ws allowed execute send (binary first ∷ binary second ∷ ms) buffer x
  unfolding handle_ws take_message
  handle_ws-split buffer first second last ms x holds =
      let f = send_frame allowed execute send in
      let next = after_message allowed execute send (handle_ws allowed execute send ms) in
      ap (λ b. next (drain allowed execute f b x)) (sym (append_assoc buffer first second))
      ∙ (ap next (drain-append allowed execute f (buffer ++ first) last second x holds)
          ∙ go (drain allowed execute f (buffer ++ first) x))
    where
      go :
          (d : Drained X)
          → after_message allowed execute send
              (handle_ws allowed execute send ms)
              (resume allowed execute (send_frame allowed execute send) second d)
            ≡ after_message allowed execute send
                (handle_ws allowed execute send (binary second ∷ ms))
                d
      go (waiting rest x1) = refl
      go (cleared x1) = refl
      go (returned x1) = refl
      go (crashed x1) = refl
      go (Drained.out_of_fuel x1) = refl
