-- ===== src/Resp/RoundTrip.antt =====
-- `parse_command` reads what `value_to_resp` writes of an array of bulk strings.
use redis_web.Prelude.{
  suc, ◌+◌, ◌*◌, ◌≤◌, List, [], ◌∷◌, ◌++◌, ◌≡◌, refl, ap, arith, All, length, length-append,
  append_assoc, le→ltb,
}
use redis_web.Text.{Bytes, crlf}
use redis_web.Text.Decimal.{to_string, isize_max}
use redis_web.Resp.Reply.{
  Value, Values, bulk_string, array, no_values, value, count, value_to_resp, items_to_resp,
}
use redis_web.Resp.Command.{done, parse_command, allocate, vec_size}
use redis_web.Resp.Framing.{
  header_line, frames, read_line-header_line, header-header_line, parse_args-frames,
}

-- The arguments of a command as the reply that Redis clients send.
abbrev bulks : List Bytes → Values
bulks [] = no_values
bulks (arg ∷ args) = value (bulk_string arg) (bulks args)

abbrev pub command : List Bytes → Value
command args = array (bulks args)

-- What the allocations for a command need: the table of arguments and each of them fit `isize`.
abbrev pub Fits : List Bytes → Type 0
Fits args = (length args * vec_size ≤ isize_max) × All (λ a. length a ≤ isize_max) args

count-bulks : (args : List Bytes) → count (bulks args) ≡ length args
count-bulks [] = refl
count-bulks (arg ∷ args) = ap suc (count-bulks args)

items_to_resp-bulks : (args : List Bytes) → items_to_resp (bulks args) ≡ frames args
unfolding value_to_resp
items_to_resp-bulks [] = refl
items_to_resp-bulks (arg ∷ args) =
    rw (items_to_resp-bulks args, append_assoc (to_string (length arg)) crlf (arg ++ crlf))

value_to_resp-command :
    (args : List Bytes)
    → value_to_resp (command args) ≡ header_line b'*' (length args) ++ frames args
unfolding value_to_resp
value_to_resp-command args = rw (
  count-bulks args,
  items_to_resp-bulks args,
  append_assoc (to_string (length args)) crlf (frames args),
)

parse_command-frames :
    (args : List Bytes) (rest : Bytes)
    → Fits args
    → parse_command (header_line b'*' (length args) ++ (frames args ++ rest))
      ≡ done (args, length (header_line b'*' (length args)) + length (frames args))
unfolding parse_command allocate
parse_command-frames args rest (table, each) =
    let n = length args in
    let head = header_line b'*' n in
    rw
      (
        read_line-header_line b'*' n (omega arith) (frames args ++ rest) 0,
        header-header_line b'*' n (omega arith) (omega arith),
        le→ltb isize_max (n * vec_size) table,
      )
      (rw (
        parse_args-frames args [] rest (0 + length head) (length head + length (frames args)) each
          (omega arith)))

-- A command printed by `value_to_resp` as an array of bulk strings is parsed back, whatever bytes
-- follow it, and the number of consumed bytes is that of the frame. It has to fit the allocations.
pub parse_command-value_to_resp :
    (args : List Bytes) (rest : Bytes)
    → Fits args
    → parse_command (value_to_resp (command args) ++ rest)
      ≡ done (args, length (value_to_resp (command args)))
parse_command-value_to_resp args rest fits =
    let head = header_line b'*' (length args) in
    rw
      (
        value_to_resp-command args,
        append_assoc head (frames args) rest,
        length-append head (frames args),
      )
      (parse_command-frames args rest fits)
