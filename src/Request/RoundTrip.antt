-- ===== src/Request/RoundTrip.antt =====
-- A client that escapes its segments gets the command that it means.
use redis_web.Prelude.{
  ℕ, ◌≤◌, true, false, none, List, [], ◌∷◌, ◌++◌, ◌≡◌, ◌≢◌, refl, ◌∙◌, ap, arith, ok, is_empty, all,
  All, map, append-nil, le→leb,
}
use redis_web.Text.{Bytes, codes}
use redis_web.Text.Utf8.{from_utf8_lossy}
use redis_web.Text.Search.{split, Lacks, split-append, split-Lacks, rfind-Lacks}
use redis_web.Text.Decimal.{u8_max, to_string, IsDecimal}
use redis_web.Text.Decimal.Laws.{to_string-IsDecimal, to_string-ne-nil, decimal_value-to_string}
use redis_web.Format.{json, select_jsonp_callback, non_empty}
use redis_web.Text.Ascii.{is_digit}
use redis_web.Request.{
  ParseRequestInput, ParsedRequest, is_decimal_segment, body_args, take_extension,
  take_last_extension, finish_request, parse_http_request,
}
use redis_web.Request.Percent.{
  percent_encode, percent_decode_segment_lossy, percent_decode-percent_encode, percent_encode-Lacks,
  IsBytes,
}
use redis_web.Request.Database.{parse_http_request_database}

-- bytes that are text: the lossy conversion keeps them
abbrev pub IsText : Bytes → Type 0
IsText s = IsBytes s × (from_utf8_lossy s ≡ s)

-- `/` and the escaped argument, for each
abbrev encode_args : List Bytes → Bytes
encode_args [] = []
encode_args (arg ∷ args) = b'/' ∷ (percent_encode arg ++ encode_args args)

abbrev pub encode_path : Bytes → List Bytes → Bytes
encode_path name args = percent_encode name ++ encode_args args

module _ (s : Bytes) (h : IsBytes s) where
  encode-NoSlash : Lacks b'/' (percent_encode s)
  encode-NoSlash = percent_encode-Lacks b'/' s (omega arith) (omega arith) h

  take_extension-encode : take_extension (percent_encode s) ≡ (percent_encode s, none)
  unfolding take_extension
  take_extension-encode = ground (
    arith,
    rfind-Lacks b'.' (percent_encode s) (percent_encode-Lacks b'.' s (omega arith) (omega arith) h),
  )

split-encode :
    (name : Bytes) (args : List Bytes)
    → IsBytes name
    → All IsBytes args
    → split b'/' (encode_path name args) ≡ percent_encode name ∷ map percent_encode args
split-encode name [] h hs =
    rw (append-nil (percent_encode name))
      (split-Lacks b'/' (percent_encode name) (encode-NoSlash name h))
split-encode name (arg ∷ args) h (ha, hs) = rw (
  split-append b'/' (percent_encode name) (encode_path arg args) (encode-NoSlash name h),
  split-encode arg args ha hs,
)

take_last_extension-encode :
    (args : List Bytes)
    → All IsBytes args
    → take_last_extension (map percent_encode args) ≡ (map percent_encode args, none)
unfolding take_last_extension
take_last_extension-encode [] h = refl
take_last_extension-encode (arg ∷ []) (h, _) = rw (take_extension-encode arg h)
take_last_extension-encode (arg ∷ more ∷ args) (h, hs) =
    rw (take_last_extension-encode (more ∷ args) hs)

decode-encode : (s : Bytes) → IsText s → percent_decode_segment_lossy (percent_encode s) ≡ s
unfolding percent_decode_segment_lossy
decode-encode s (h, same) = rw (percent_decode-percent_encode s h) same

decode-encode-All :
    (args : List Bytes)
    → All IsText args
    → map percent_decode_segment_lossy (map percent_encode args) ≡ args
decode-encode-All [] h = refl
decode-encode-All (arg ∷ args) (h, hs) = rw (decode-encode arg h, decode-encode-All args hs)

texts-IsBytes : (args : List Bytes) → All IsText args → All IsBytes args
texts-IsBytes [] h = tt
texts-IsBytes (arg ∷ args) (h, hs) = (h.0, texts-IsBytes args hs)

encode_empty : (s : Bytes) → s ≢ [] → is_empty (percent_encode s) ≡ false
unfolding percent_encode
encode_empty [] ne = absurd (ne refl)
encode_empty (c ∷ s) ne = refl

decimal-NoSlash : (s : Bytes) → IsDecimal s → Lacks b'/' s
decimal-NoSlash [] h = tt
decimal-NoSlash (c ∷ s) (hc, h) = (omega arith, decimal-NoSlash s h)

all-is_digit : (s : Bytes) → IsDecimal s → all is_digit s ≡ true
all-is_digit [] h = refl
all-is_digit (c ∷ s) (hc, h) = ground (arith, all-is_digit s h)

decimal-segment : (s : Bytes) → IsDecimal s → s ≢ [] → is_decimal_segment s ≡ true
decimal-segment [] h ne = absurd (ne refl)
decimal-segment (c ∷ s) h ne = all-is_digit (c ∷ s) h

to_string-decimal : (n : ℕ) → is_decimal_segment (to_string n) ≡ true
to_string-decimal n = decimal-segment (to_string n) (to_string-IsDecimal n) (to_string-ne-nil n)

-- The request for a command with no suffix on its path.
abbrev pub plain_request : ParseRequestInput → ℕ → Bytes → List Bytes → ParsedRequest
plain_request input db name args = record {
  command = record {
    target_database = db;
    command_name = name;
    args = args ++ body_args input.body;
  };
  output_format = json;
  jsonp_callback = select_jsonp_callback input.params;
  content_type_override = non_empty (input.params (codes "type"));
  extension_content_type = none;
  etag_enabled = input.etag_enabled;
}

module _ (input : ParseRequestInput) (name : Bytes) (text : IsText name) where
  finish_request-encode :
      (db : ℕ) (args : List Bytes)
      → All IsText args
      → finish_request input (db, percent_encode name, map percent_encode args)
        ≡ plain_request input db name args
  unfolding finish_request
  finish_request-encode db [] hs = rw (take_extension-encode name text.0, decode-encode name text)
  finish_request-encode db (arg ∷ args) hs =
      rw (take_last_extension-encode (arg ∷ args) (texts-IsBytes (arg ∷ args) hs))
        (rw (decode-encode name text, decode-encode arg hs.0, decode-encode-All args hs.1))

  encode-not_decimal : is_decimal_segment (percent_encode name) ≡ false
  unfolding percent_encode
  encode-not_decimal = go name
    where
      go : (s : Bytes) → is_decimal_segment (percent_encode s) ≡ false
      go [] = refl
      go (c ∷ s) = refl

  -- A path of escaped segments is the command that they spell, with its arguments unchanged, for the
  -- default database and as JSON. The segments have to be UTF-8.
  pub parse_http_request-encode_path :
      (args : List Bytes)
      → All IsText args
      → input.command_path ≡ encode_path name args
      → parse_http_request input ≡ ok (plain_request input input.default_database name args)
  parse_http_request-encode_path args hs path =
      parse_http_request_database input (percent_encode name) (map percent_encode args)
        (ap (split b'/') path ∙ split-encode name args text.0 (texts-IsBytes args hs))
      ∙ rw encode-not_decimal (rw (finish_request-encode input.default_database args hs))

  -- With a database index in front, and a command that is not empty, that database is chosen.
  parse_http_request-database_prefix :
      (db : ℕ) (args : List Bytes)
      → db ≤ u8_max
      → name ≢ []
      → All IsText args
      → input.command_path ≡ to_string db ++ b'/' ∷ encode_path name args
      → parse_http_request input ≡ ok (plain_request input db name args)
  parse_http_request-database_prefix db args le ne hs path =
      parse_http_request_database input (to_string db)
        (percent_encode name ∷ map percent_encode args)
        (ap (split b'/') path
          ∙ split-append b'/' (to_string db) (encode_path name args)
              (decimal-NoSlash _ (to_string-IsDecimal db))
          ∙ ap (λ (ps : List Bytes). to_string db ∷ ps)
              (split-encode name args text.0 (texts-IsBytes args hs)))
      ∙ rw (to_string-decimal db, decimal_value-to_string db, le→leb db u8_max le)
          (rw encode-not_empty (rw (finish_request-encode db args hs)))
    where
      encode-not_empty : is_empty (percent_encode name) ≡ false
      encode-not_empty = encode_empty name ne
