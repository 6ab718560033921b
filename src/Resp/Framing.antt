-- ===== src/Resp/Framing.antt =====
-- Frames as they go over the wire, and how the parser's steps read them.
use redis_web.Prelude.{
  ℕ, ◌+◌, ◌*◌, ◌≤◌, ◌<◌, List, [], ◌∷◌, ◌++◌, ◌≡◌, refl, true, ap, arith, All, All-append, length,
  length-append, take, drop, take-append, drop-append, append_assoc, append-nil, le→ltb, lt→ltb,
}
use native.Mathlib.Nat.{add-zero}
use redis_web.Text.{Bytes, crlf}
use redis_web.Text.Decimal.{to_string, usize_max, isize_max, IsDecimal}
use redis_web.Text.Decimal.Laws.{to_string-IsDecimal, parse_uint-to_string}
use redis_web.Text.Trim.{trim-crlf, IsPlain}
use redis_web.Text.Utf8.{is_utf8}
use redis_web.Text.Utf8.Ascii.{IsAscii, is_utf8-IsAscii}
use redis_web.Resp.Command.{
  done, need_more, Cursor, line_of, advance, read_line, read_exact, header, allocate, expect_crlf,
  parse_arg, parse_args,
}

abbrev pub at : Bytes → ℕ → Cursor
at s p = record { unread = s; position = p }

abbrev pub header_line : ℕ → ℕ → Bytes
header_line mark n = mark ∷ (to_string n ++ crlf)

-- `$<len>\r\n<arg>\r\n`
abbrev pub frame : Bytes → Bytes
frame arg = header_line b'$' (length arg) ++ (arg ++ crlf)

abbrev pub frames : List Bytes → Bytes
frames [] = []
frames (arg ∷ args) = frame arg ++ frames args

IsDecimal-IsPlain : (s : Bytes) → IsDecimal s → All IsPlain s
IsDecimal-IsPlain [] h = tt
IsDecimal-IsPlain (c ∷ s) (hc, h) = (omega arith, IsDecimal-IsPlain s h)

IsPlain-IsAscii : (s : Bytes) → All IsPlain s → IsAscii s
IsPlain-IsAscii [] h = tt
IsPlain-IsAscii (c ∷ s) (hc, h) = (omega arith, IsPlain-IsAscii s h)

line_of-crlf : (s rest : Bytes) → All IsPlain s → line_of ((s ++ crlf) ++ rest) ≡ s ++ crlf
unfolding line_of
line_of-crlf [] rest h = refl
line_of-crlf (c ∷ s) rest (hc, h) = ground (arith, line_of-crlf s rest h)

to_string-IsPlain : (n : ℕ) → All IsPlain (to_string n)
to_string-IsPlain n = IsDecimal-IsPlain (to_string n) (to_string-IsDecimal n)

module _ (mark n : ℕ) (plain : IsPlain mark) where
  header_line-IsPlain : All IsPlain (mark ∷ to_string n)
  header_line-IsPlain = (plain, to_string-IsPlain n)

  is_utf8-header_line : is_utf8 (header_line mark n) ≡ true
  is_utf8-header_line = is_utf8-IsAscii (header_line mark n) (
      All-append _ (mark ∷ to_string n) crlf
        (IsPlain-IsAscii (mark ∷ to_string n) header_line-IsPlain) (omega arith))

  -- A header line is read up to its end.
  pub read_line-header_line :
      (rest : Bytes) (p : ℕ)
      → read_line (at (header_line mark n ++ rest) p)
        ≡ done (header_line mark n, at rest (p + length (header_line mark n)))
  unfolding read_line advance
  read_line-header_line rest p =
      rw (line_of-crlf (mark ∷ to_string n) rest header_line-IsPlain, is_utf8-header_line)
        (rw (drop-append (header_line mark n) rest))

  pub header-header_line : n ≤ usize_max → header mark (header_line mark n) ≡ done n
  unfolding header
  header-header_line h =
      ground
        (arith, trim-crlf (to_string n) (to_string-IsPlain n), parse_uint-to_string usize_max n h)

read_exact-append :
    (s rest : Bytes) (p : ℕ)
    → read_exact (length s) (at (s ++ rest) p) ≡ done (s, at rest (p + length s))
unfolding read_exact advance
read_exact-append s rest p =
    rw (le→ltb (length (s ++ rest)) (length s) (omega (arith, length-append s rest)))
      (rw (take-append s rest, drop-append s rest))

pub read_exact_short :
    (n : ℕ) (s : Bytes) (p : ℕ) → length s < n → read_exact n (at s p) ≡ need_more
unfolding read_exact
read_exact_short n s p h = rw (lt→ltb (length s) n h)

pub read_exact_enough :
    (n : ℕ) (s : Bytes) (p : ℕ)
    → n ≤ length s
    → read_exact n (at s p) ≡ done (take n s, at (drop n s) (p + n))
unfolding read_exact advance
read_exact_enough n s p h = rw (le→ltb (length s) n h)

expect_crlf-crlf : expect_crlf crlf ≡ done tt
unfolding expect_crlf
expect_crlf-crlf = refl

length-frame :
    (arg : Bytes) → length (frame arg) ≡ length (header_line b'$' (length arg)) + length arg + 2
length-frame arg =
    omega
      (arith, length-append (header_line b'$' (length arg)) (arg ++ crlf), length-append arg crlf)

-- One argument is read back from its frame, and the cursor stands behind it.
pub parse_arg-frame :
    (arg rest : Bytes) (p q : ℕ)
    → length arg ≤ isize_max
    → q ≡ p + length (frame arg)
    → parse_arg (at (frame arg ++ rest) p) ≡ done (arg, at rest q)
unfolding parse_arg allocate
parse_arg-frame arg rest p q h e =
    let n = length arg in
    let head = header_line b'$' n in
    rw (append_assoc head (arg ++ crlf) rest, append_assoc arg crlf rest)
      (rw (read_line-header_line b'$' n (omega arith) (arg ++ (crlf ++ rest)) p) (
        rw
          (
            header-header_line b'$' n (omega arith) (omega arith),
            le→ltb isize_max (n * 1) (omega arith),
          )
          (rw (read_exact-append arg (crlf ++ rest) (p + length head)) (
            rw (read_exact-append crlf rest (p + length head + length arg), expect_crlf-crlf)
              (ap (λ k. done (arg, at rest k)) (omega (arith, length-frame arg)))))))

pub parse_args-frames :
    (args acc : List Bytes) (rest : Bytes) (p q : ℕ)
    → All (λ a. length a ≤ isize_max) args
    → q ≡ p + length (frames args)
    → parse_args (length args) acc (at (frames args ++ rest) p) ≡ done (acc ++ args, at rest q)
unfolding parse_args
parse_args-frames [] acc rest p q h e = rw (append-nil acc, e, add-zero)
parse_args-frames (arg ∷ args) acc rest p q (ha, h) e =
    rw
      (
        append_assoc (frame arg) (frames args) rest,
        parse_arg-frame arg (frames args ++ rest) p (p + length (frame arg)) ha refl,
      )
      (rw (
        parse_args-frames args (acc ++ arg ∷ []) rest (p + length (frame arg)) q h
            (omega (arith, length-append (frame arg) (frames args))),
        append_assoc acc (arg ∷ []) args,
      ))
