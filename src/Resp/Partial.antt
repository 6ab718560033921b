-- ===== src/Resp/Partial.antt =====
-- A command that has not arrived whole: inside an argument the parser asks for more, and a header
-- line that has been cut is an error.
use redis_web.Prelude.{
  ℕ, suc, ◌+◌, ◌*◌, ◌≤◌, ◌<◌, List, [], ◌∷◌, ◌++◌, ◌≡◌, refl, arith, All, length, length-append,
  length-drop, append_assoc, append-nil, ltb, Bool-cases, inl, inr, le→ltb, ltb→le, ltb→lt, drop,
  ◌∙◌,
}
use native.Mathlib.Nat.{add-zero}
use redis_web.Text.{Bytes}
use redis_web.Text.Decimal.{isize_max}
use redis_web.Text.Decimal
use redis_web.Text.Trim.{trim}
use redis_web.Text.Utf8.{is_utf8}
use redis_web.Resp.Command.{
  done, need_more, bad, invalid_format, line_of, read_line, header, allocate, vec_size, parse_arg,
  parse_args, parse_command, ◌>>=◌,
}
use redis_web.Resp.Framing.{
  at, header_line, frame, frames, read_line-header_line, header-header_line, parse_arg-frame,
  read_exact_short, read_exact_enough,
}

abbrev Small : List Bytes → Type 0
Small = All (λ a. length a ≤ isize_max)

-- the number of arguments, when `n` follow the given ones
abbrev with_more : List Bytes → ℕ → ℕ
with_more [] n = n
with_more (arg ∷ args) n = suc (with_more args n)

parse_args-frames_then :
    (args acc : List Bytes) (n : ℕ) (rest : Bytes) (p q : ℕ)
    → Small args
    → q ≡ p + length (frames args)
    → parse_args (with_more args n) acc (at (frames args ++ rest) p)
      ≡ parse_args n (acc ++ args) (at rest q)
unfolding parse_args
parse_args-frames_then [] acc n rest p q h e = rw (append-nil acc, e, add-zero)
parse_args-frames_then (arg ∷ args) acc n rest p q (ha, h) e =
    let p' = p + length (frame arg) in
    rw
      (
        append_assoc (frame arg) (frames args) rest,
        parse_arg-frame arg (frames args ++ rest) p p' ha refl,
      )
      (rw (
        parse_args-frames_then args (acc ++ arg ∷ []) n rest p' q h
            (omega (arith, length-append (frame arg) (frames args))),
        append_assoc acc (arg ∷ []) args,
      ))

-- An array header, the whole arguments, and the bytes of the next argument that have arrived.
abbrev cut_command : List Bytes → ℕ → Bytes → Bytes
cut_command args missing part =
    header_line b'*' (with_more args (suc missing)) ++ (frames args ++ part)

abbrev pub CutFits : List Bytes → ℕ → Type 0
CutFits args missing = (with_more args (suc missing) * vec_size ≤ isize_max) × Small args

parse_command-cut :
    (args : List Bytes) (missing : ℕ) (part : Bytes)
    → CutFits args missing
    → (p : ℕ) × (parse_command (cut_command args missing part)
        ≡ (do (found, c) ← parse_args (suc missing) args (at part p); done (found, c.position)))
unfolding parse_command allocate
parse_command-cut args missing part (table, small) =
    let n = with_more args (suc missing) in
    let head = header_line b'*' n in
    (
      length head + length (frames args),
      rw
          (
            read_line-header_line b'*' n (omega arith) (frames args ++ part) 0,
            header-header_line b'*' n (omega arith) (omega arith),
            le→ltb isize_max (n * vec_size) table,
          )
          (rw (
            parse_args-frames_then args [] (suc missing) part (0 + length head)
              (length head + length (frames args)) small (omega arith))),
    )

parse_arg_cut :
    (len : ℕ) (part : Bytes) (p : ℕ)
    → len ≤ isize_max
    → length part < len + 2
    → parse_arg (at (header_line b'$' len ++ part) p) ≡ need_more
unfolding parse_arg allocate
parse_arg_cut len part p h short =
    let q = p + length (header_line b'$' len) in
    rw
      (
        read_line-header_line b'$' len (omega arith) part p,
        header-header_line b'$' len (omega arith) (omega arith),
        le→ltb isize_max (len * 1) (omega arith),
      )
      (elim (Bool-cases (ltb (length part) len)) [
        | inl less ↦ rw (read_exact_short len part q (ltb→lt _ _ less))
        | inr enough ↦ rw (read_exact_enough len part q (ltb→le _ _ enough)) (
            rw (read_exact_short 2 (drop len part) (q + len) (omega (arith, length-drop len part))))
      ])

-- Inside an argument, be it the data or the CRLF behind them, more bytes are asked for.
parse_command_cut_in_argument :
    (args : List Bytes) (missing len : ℕ) (part : Bytes)
    → CutFits args missing
    → len ≤ isize_max
    → length part < len + 2
    → parse_command (cut_command args missing (header_line b'$' len ++ part)) ≡ need_more
unfolding parse_args
parse_command_cut_in_argument args missing len part fits small short =
    let (p, e) = parse_command-cut args missing (header_line b'$' len ++ part) fits in
    e ∙ rw (parse_arg_cut len part p small short)

-- A buffer that ends right behind the `$` of an argument's header is refused as invalid, although
-- the bytes that are still to come would make it a command.
parse_command_cut_after_mark :
    (args : List Bytes) (missing : ℕ)
    → CutFits args missing
    → parse_command (cut_command args missing (b'$' ∷ [])) ≡ bad invalid_format
unfolding parse_args parse_arg read_line header line_of trim is_utf8 Decimal.parse_uint
parse_command_cut_after_mark args missing fits =
    let (p, e) = parse_command-cut args missing (b'$' ∷ []) fits in e
