-- ===== src/Request/Database.antt =====
-- The database prefix of a request path.
use redis_web.Prelude.{
  ℕ, ◌≤◌, true, none, some, List, [], ◌∷◌, ◌≡◌, sym, ◌∙◌, arith, Result, ok, err, ◌>>=◌, leb,
  if◌then◌else◌, all, Bool-cases, inl, inr, ◌⊎◌,
}
use redis_web.Text.{Bytes}
use redis_web.Text.Ascii.{is_digit}
use redis_web.Text.Search.{split, split_parts}
use redis_web.Text.Decimal.{u8_max, parse_uint, decimal_value, IsDecimal}
use redis_web.Text.Decimal.Laws.{parse_uint_decimal}
use redis_web.Request.{
  ParseRequestInput, ParsedRequest, RequestParseError, invalid_database_index,
  missing_command_after_database_prefix, is_decimal_segment, after_prefix, select_database,
  finish_request, parse_http_request,
}

is_digit-IsDecimal : (s : Bytes) → all is_digit s ≡ true → IsDecimal s
is_digit-IsDecimal [] h = tt
is_digit-IsDecimal (c ∷ s) h = ((ground arith, ground arith), is_digit-IsDecimal s (ground arith))

-- What a first segment and the segments behind it say of the database.
abbrev pub chosen : ℕ → Bytes → List Bytes → Result RequestParseError (ℕ × Bytes × List Bytes)
chosen default first rest =
    if is_decimal_segment first
    then (if leb (decimal_value first) u8_max
        then after_prefix (decimal_value first) rest
        else err invalid_database_index)
    else ok (default, first, rest)

parse_index :
    (first : Bytes)
    → is_decimal_segment first ≡ true
    → parse_uint u8_max first
      ≡ (if leb (decimal_value first) u8_max then some (decimal_value first) else none)
parse_index [] h = cc
parse_index (c ∷ s) h =
    parse_uint_decimal u8_max (c ∷ s) (is_digit-IsDecimal (c ∷ s) (ground arith)) (cc)

select_database_lem :
    (default : ℕ) (first : Bytes) (rest : List Bytes)
    → select_database default (first ∷ rest) ≡ chosen default first rest
unfolding select_database
select_database_lem default first rest = elim (Bool-cases (is_decimal_segment first)) [
  | inl e ↦ rw (e, parse_index first e) (ground arith)
  | inr e ↦ rw e
]

-- A first segment of digits is the database, as a decimal number of any length: above 255 it is an
-- invalid index, and with no command behind it the command is missing. Any other first segment is
-- the command, run against the default database.
pub parse_http_request_database :
    (input : ParseRequestInput) (first : Bytes) (rest : List Bytes)
    → split b'/' input.command_path ≡ first ∷ rest
    → parse_http_request input
      ≡ (do parts ← chosen input.default_database first rest; ok (finish_request input parts))
unfolding parse_http_request
parse_http_request_database input first rest e =
    rw (e, select_database_lem input.default_database first rest)

module _ (default : ℕ) (first : Bytes) (input : ParseRequestInput) where
  abbrev outcome : List Bytes → Result RequestParseError ParsedRequest
  outcome rest = chosen default first rest >>= λ parts. ok (finish_request input parts)

  chosen_errors :
      (rest : List Bytes) (e : RequestParseError)
      → outcome rest ≡ err e
      → (e ≡ invalid_database_index) ⊎ (e ≡ missing_command_after_database_prefix)
  chosen_errors [] e h = ground arith
  chosen_errors (name ∷ args) e h = ground arith

  chosen_database :
      (rest : List Bytes) (request : ParsedRequest)
      → default ≤ u8_max
      → outcome rest ≡ ok request
      → request.command.target_database ≤ u8_max
  unfolding finish_request
  chosen_database [] request h e = ground arith
  chosen_database (name ∷ args) request h e = ground arith

-- A refused request has an invalid database index or no command behind its database prefix: no
-- request is ever refused as an empty command, or as an invalid one, whatever its path.
parse_http_request_errors :
    (input : ParseRequestInput) (e : RequestParseError)
    → parse_http_request input ≡ err e
    → (e ≡ invalid_database_index) ⊎ (e ≡ missing_command_after_database_prefix)
parse_http_request_errors input e h =
    let (first, rest, parts) = split_parts b'/' input.command_path in
    chosen_errors input.default_database first input rest e
      (sym (parse_http_request_database input first rest parts) ∙ h)

-- The database of an accepted request is at most 255, if the default one is.
target_database_le :
    (input : ParseRequestInput) (request : ParsedRequest)
    → input.default_database ≤ u8_max
    → parse_http_request input ≡ ok request
    → request.command.target_database ≤ u8_max
target_database_le input request h e =
    let (first, rest, parts) = split_parts b'/' input.command_path in
    chosen_database input.default_database first input rest request h
      (sym (parse_http_request_database input first rest parts) ∙ e)
