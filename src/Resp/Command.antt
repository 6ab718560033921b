-- ===== src/Resp/Command.antt =====
-- `parse_command` of crates/redis-web-core/src/resp.rs: a command as an array of bulk strings.
use redis_web.Prelude.{
  ℕ, zero, suc, ◌+◌, ◌*◌, List, [], ◌∷◌, ◌++◌, ltb, ◌==◌, if◌then◌else◌, none, some, length, take,
  drop, is_empty,
}
use redis_web.Text.{Bytes, crlf, eq_bytes}
use redis_web.Text.Decimal.{usize_max, isize_max, parse_uint}
use redis_web.Text.Trim.{trim}
use redis_web.Text.Utf8.{is_utf8}

pub data RespError : Type 0 where
  invalid_format incomplete io : RespError

-- `Result<Option<A>, RespError>`: `done a` is `Ok(Some(a))`, `need_more` is `Ok(None)` and `bad e` is
-- `Err(e)`. `capacity_overflow` is the panic of an allocation past `isize::MAX` bytes.
pub data Parsed {ℓ} (A : Type ℓ) : Type ℓ where
  done : A → Parsed A
  need_more capacity_overflow : Parsed A
  bad : RespError → Parsed A

infixl 5 ◌>>=◌ ◌>>◌
abbrev pub ◌>>=◌ {ℓ κ} : {A : Type ℓ} {B : Type κ} → Parsed A → (A → Parsed B) → Parsed B
need_more >>= rest = need_more
capacity_overflow >>= rest = capacity_overflow
bad error >>= rest = bad error
done value >>= rest = rest value

abbrev ◌>>◌ {ℓ} : {A : Type ℓ} → Parsed (Unit {0}) → Parsed A → Parsed A
checked >> rest = checked >>= λ _. rest

-- `Cursor<&[u8]>`: what is unread, and the position
pub record Cursor : Type 0 where
  pub unread : Bytes
  pub position : ℕ

-- up to the first newline, which is included, or to the end
unfoldable pub line_of : Bytes → Bytes
line_of [] = []
line_of (c ∷ s) = let rest = line_of s in if c == b'\n' then c ∷ [] else c ∷ rest

unfoldable pub advance : ℕ → Cursor → Cursor
advance n c = record { unread = drop n c.unread; position = c.position + n }

-- `cursor.read_line(&mut line)? == 0` returns `Ok(None)`, and text that is no UTF-8 is an error.
unfoldable pub read_line : Cursor → Parsed (Bytes × Cursor)
unfolding line_of advance
read_line c =
    let line = line_of c.unread in
    if is_empty line
    then need_more
    else if is_utf8 line
    then done (line, advance (length line) c)
    else bad io

-- `cursor.read_exact(&mut buf)` with its error mapped to `Ok(None)`
unfoldable pub read_exact : ℕ → Cursor → Parsed (Bytes × Cursor)
unfolding advance
read_exact n c = if ltb (length c.unread) n then need_more else done (take n c.unread, advance n c)

-- `line[1..].trim().parse()` of a line that must begin with `mark`
unfoldable pub header : ℕ → Bytes → Parsed ℕ
header mark [] = bad invalid_format
header mark (c ∷ rest) =
    if c == mark
    then elim (parse_uint usize_max (trim rest)) [ none ↦ bad invalid_format | some n ↦ done n ]
    else bad invalid_format

-- the size in bytes of `n` elements of `size` bytes is checked by the allocation
unfoldable pub allocate : ℕ → ℕ → Parsed (Unit {0})
allocate size n = if ltb isize_max (n * size) then capacity_overflow else done tt

-- a `Vec<u8>` is three words
abbrev pub vec_size : ℕ
vec_size = 24

unfoldable pub expect_crlf : Bytes → Parsed (Unit {0})
expect_crlf s = if eq_bytes s crlf then done tt else bad invalid_format

-- the body of `for _ in 0..count`
unfoldable pub parse_arg : Cursor → Parsed (Bytes × Cursor)
parse_arg c = do
  (line, c1) ← read_line c
  len ← header b'$' line
  allocate 1 len
  (arg, c2) ← read_exact len c1
  (end, c3) ← read_exact 2 c2
  expect_crlf end
  done (arg, c3)

unfoldable pub parse_args : ℕ → List Bytes → Cursor → Parsed (List Bytes × Cursor)
parse_args zero args c = done (args, c)
parse_args (suc n) args c = do (arg, c') ← parse_arg c; parse_args n (args ++ arg ∷ []) c'

unfoldable pub parse_command : Bytes → Parsed (List Bytes × ℕ)
parse_command buffer = do
  (line, c) ← read_line (record { unread = buffer; position = 0 })
  count ← header b'*' line
  allocate vec_size count
  (args, c') ← parse_args count [] c
  done (args, c'.position)
