-- ===== src/Resp/Progress.antt =====
-- A parsed command consumes bytes, and no more than there are.
use redis_web.Prelude.{
  ℕ, zero, suc, ◌+◌, ◌≤◌, ◌<◌, List, [], ◌∷◌, ◌++◌, ◌≡◌, refl, arith, length, length-drop,
}
use redis_web.Text.{Bytes}
use redis_web.Resp.Command.{
  Parsed, done, need_more, capacity_overflow, bad, Cursor, line_of, advance, read_line, read_exact,
  header, allocate, expect_crlf, parse_arg, parse_args, parse_command, vec_size, ◌>>=◌,
}
use redis_web.Resp.Framing.{at}

-- Inversion of a successful bind, handed to what follows.
pub bind_done {ℓ κ μ} :
    {A : Type ℓ} {B : Type κ} {C : Type μ} (m : Parsed A) (f : A → Parsed B) {b : B}
    → (m >>= f) ≡ done b
    → ((a : A) → m ≡ done a → f a ≡ done b → C)
    → C
bind_done (done a) f h k = k a refl h
bind_done need_more f h k = cc
bind_done capacity_overflow f h k = cc
bind_done (bad e) f h k = cc

-- What is unread and the position make up the whole buffer.
abbrev total : Cursor → ℕ
total c = c.position + length c.unread

length-line_of : (s : Bytes) → length (line_of s) ≤ length s
unfolding line_of
length-line_of [] = omega arith
length-line_of (c ∷ s) = ground (arith, length-line_of s)

total-advance : (n : ℕ) (c : Cursor) → n ≤ length c.unread → total (advance n c) ≡ total c
unfolding advance
total-advance n c h = omega (arith, length-drop n c.unread)

position-advance : (n : ℕ) (c : Cursor) → (advance n c).position ≡ c.position + n
unfolding advance
position-advance n c = refl

-- `c'` stands behind `c` in the same buffer.
abbrev Behind : Cursor → Cursor → Type 0
Behind c c' = (c.position ≤ c'.position) × (total c' ≡ total c)

read_line-Behind :
    (c : Cursor) {line : Bytes} {c' : Cursor}
    → read_line c ≡ done (line, c')
    → (c.position < c'.position) × (total c' ≡ total c)
unfolding read_line
read_line-Behind c h =
    let line = line_of c.unread in
    ground (
      arith,
      total-advance (length line) c (length-line_of c.unread),
      position-advance (length line) c,
    )

read_exact-Behind :
    (n : ℕ) (c : Cursor) {s : Bytes} {c' : Cursor} → read_exact n c ≡ done (s, c') → Behind c c'
unfolding read_exact
read_exact-Behind n c h = ground (arith, total-advance n c, position-advance n c)

parse_arg-Behind :
    (c : Cursor) {arg : Bytes} {c' : Cursor} → parse_arg c ≡ done (arg, c') → Behind c c'
unfolding parse_arg
parse_arg-Behind c h = bind_done (read_line c) _ h λ (line, c1) e1 h1.
    bind_done (header b'$' line) _ h1 λ len e2 h2. bind_done (allocate 1 len) _ h2 λ _ e3 h3.
      bind_done (read_exact len c1) _ h3 λ (arg, c2) e4 h4.
        bind_done (read_exact 2 c2) _ h4 λ (end, c3) e5 h5.
          bind_done (expect_crlf end) _ h5 λ _ e6 h6.
            ground
              (arith, read_line-Behind c e1, read_exact-Behind len c1 e4, read_exact-Behind 2 c2 e5)

parse_args-Behind :
    (n : ℕ) (acc : List Bytes) (c : Cursor) {args : List Bytes} {c' : Cursor}
    → parse_args n acc c ≡ done (args, c')
    → Behind c c'
unfolding parse_args
parse_args-Behind zero acc c h = ground arith
parse_args-Behind (suc n) acc c h = bind_done (parse_arg c) _ h λ (arg, c1) e1 h1.
    ground (arith, parse_arg-Behind c e1, parse_args-Behind n (acc ++ arg ∷ []) c1 h1)

-- A parsed command took at least one byte, and no more than the buffer holds: a loop that drops what
-- was consumed comes to an end.
pub parse_command_progress :
    (buffer : Bytes) (args : List Bytes) (consumed : ℕ)
    → parse_command buffer ≡ done (args, consumed)
    → (0 < consumed) × (consumed ≤ length buffer)
unfolding parse_command
parse_command_progress buffer args consumed h =
    let c = at buffer 0 in
    bind_done (read_line c) _ h λ (line, c1) e1 h1. bind_done (header b'*' line) _ h1 λ n e2 h2.
      bind_done (allocate vec_size n) _ h2 λ _ e3 h3.
        bind_done (parse_args n [] c1) _ h3
          λ (found, c2) e4 h4. ground (arith, read_line-Behind c e1, parse_args-Behind n [] c1 e4)
