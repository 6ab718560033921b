-- ===== src/Resp/Streaming.antt =====
-- What the parser makes of a buffer when more bytes arrive behind it.
use redis_web.Prelude.{
  ℕ, zero, suc, ◌+◌, ◌≤◌, ◌<◌, List, [], ◌∷◌, ◌++◌, ◌≡◌, ◌≢◌, refl, arith, length, length-append,
  length-drop, take, drop,
}
use redis_web.Text.{Bytes}
use redis_web.Resp.Command.{
  done, Cursor, line_of, advance, read_line, read_exact, header, allocate, vec_size, expect_crlf,
  parse_arg, parse_args, parse_command,
}
use redis_web.Resp.Framing.{at}
use redis_web.Resp.Progress.{bind_done}

-- the same cursor in the longer buffer
abbrev extend : Bytes → Cursor → Cursor
extend more c = record c { unread = c.unread ++ more }

line_of-append :
    (s more : Bytes) → drop (length (line_of s)) s ≢ [] → line_of (s ++ more) ≡ line_of s
unfolding line_of
line_of-append [] more h = absurd (h refl)
line_of-append (c ∷ s) more h = ground (arith, line_of-append s more)

drop-append_le : (n : ℕ) (s more : Bytes) → n ≤ length s → drop n (s ++ more) ≡ drop n s ++ more
drop-append_le zero s more h = refl
drop-append_le (suc n) [] more h = absurd (omega arith)
drop-append_le (suc n) (c ∷ s) more h = drop-append_le n s more (omega arith)

take-append_le : (n : ℕ) (s more : Bytes) → n ≤ length s → take n (s ++ more) ≡ take n s
take-append_le zero s more h = refl
take-append_le (suc n) [] more h = absurd (omega arith)
take-append_le (suc n) (c ∷ s) more h = λ i. c ∷ take-append_le n s more (omega arith) i

length-line_of : (s : Bytes) → length (line_of s) ≤ length s
unfolding line_of
length-line_of [] = omega arith
length-line_of (c ∷ s) = ground (arith, length-line_of s)

-- A line that something follows is the same line in the longer buffer.
read_line-extend :
    (more : Bytes) (c : Cursor) {line : Bytes} {c' : Cursor}
    → read_line c ≡ done (line, c')
    → c'.unread ≢ []
    → read_line (extend more c) ≡ done (line, extend more c')
unfolding read_line advance
read_line-extend more c h ne =
    let s = c.unread in
    let n = length (line_of s) in
    ground
      (arith, line_of-append s more, drop-append_le n s more (length-line_of s), length-line_of s)

read_exact-extend :
    (more : Bytes) (n : ℕ) (c : Cursor) {s : Bytes} {c' : Cursor}
    → read_exact n c ≡ done (s, c')
    → read_exact n (extend more c) ≡ done (s, extend more c')
unfolding read_exact advance
read_exact-extend more n c h =
    let s = c.unread in
    ground (arith, length-append s more, drop-append_le n s more, take-append_le n s more)

read_exact_room :
    (n : ℕ) (c : Cursor) {s : Bytes} {c' : Cursor}
    → read_exact n c ≡ done (s, c')
    → length c.unread ≡ n + length c'.unread
unfolding read_exact advance
read_exact_room n c h = ground (arith, length-drop n c.unread)

ne_nil_of_pos : (s : Bytes) → 0 < length s → s ≢ []
ne_nil_of_pos [] h = absurd (omega arith)
ne_nil_of_pos (c ∷ s) h = cc

read_line_rest :
    (c : Cursor) {line : Bytes} {c' : Cursor} → read_line c ≡ done (line, c') → c.unread ≢ []
unfolding read_line line_of
read_line_rest c h e = ground arith

module _ (more : Bytes) where
  parse_arg-extend :
      (c : Cursor) {arg : Bytes} {c' : Cursor}
      → parse_arg c ≡ done (arg, c')
      → parse_arg (extend more c) ≡ done (arg, extend more c')
  unfolding parse_arg
  parse_arg-extend c h = bind_done (read_line c) _ h λ (line, c1) e1 h1.
      bind_done (header b'$' line) _ h1 λ len e2 h2. bind_done (allocate 1 len) _ h2 λ _ e3 h3.
        bind_done (read_exact len c1) _ h3 λ (arg, c2) e4 h4.
          bind_done (read_exact 2 c2) _ h4 λ (end, c3) e5 h5.
            bind_done (expect_crlf end) _ h5 λ _ e6 h6.
              let ne : c1.unread ≢ [] =
                ne_nil_of_pos c1.unread
                  (omega (arith, read_exact_room len c1 e4, read_exact_room 2 c2 e5)) in
              rw (read_line-extend more c e1 ne, e2, e3)
                (rw (read_exact-extend more len c1 e4)
                  (rw (read_exact-extend more 2 c2 e5) (rw e6 (ground arith))))

  parse_args-extend :
      (n : ℕ) (acc : List Bytes) (c : Cursor) {args : List Bytes} {c' : Cursor}
      → parse_args n acc c ≡ done (args, c')
      → parse_args n acc (extend more c) ≡ done (args, extend more c')
  unfolding parse_args
  parse_args-extend zero acc c h = ground arith
  parse_args-extend (suc n) acc c h =
      bind_done (parse_arg c) _ h
        λ (arg, c1) e1 h1. rw (parse_arg-extend c e1) (parse_args-extend n (acc ++ arg ∷ []) c1 h1)

parse_args_rest :
    (n : ℕ) (c : Cursor) {args : List Bytes} {c' : Cursor}
    → parse_args n [] c ≡ done (args, c')
    → args ≢ []
    → c.unread ≢ []
unfolding parse_args parse_arg
parse_args_rest zero c h ne = absurd (ne (ground arith))
parse_args_rest (suc n) c h ne =
    bind_done (parse_arg c) _ h
      λ (arg, c1) e1 h1. bind_done (read_line c) _ e1 λ (line, c2) e2 h2. read_line_rest c e2

-- Once a command with an argument has been parsed, the bytes that arrive behind it do not change the
-- result. (An array of no arguments needs no newline at the end of the buffer, so it is left out.)
pub parse_command-append :
    (buffer more : Bytes) (args : List Bytes) (consumed : ℕ)
    → args ≢ []
    → parse_command buffer ≡ done (args, consumed)
    → parse_command (buffer ++ more) ≡ done (args, consumed)
unfolding parse_command
parse_command-append buffer more args consumed ne h =
    let c = at buffer 0 in
    bind_done (read_line c) _ h λ (line, c1) e1 h1. bind_done (header b'*' line) _ h1 λ n e2 h2.
      bind_done (allocate vec_size n) _ h2 λ _ e3 h3.
        bind_done (parse_args n [] c1) _ h3 λ (found, c2) e4 h4.
          let kept : found ≢ [] = ground arith in
          rw (read_line-extend more c e1 (parse_args_rest n c1 e4 kept), e2, e3)
            (rw (parse_args-extend more n [] c1 e4) (ground arith))
