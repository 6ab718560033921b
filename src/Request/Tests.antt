-- ===== src/Request/Tests.antt =====
-- Requests that are parsed.
use redis_web.Prelude.{ℕ, true, none, List, [], ◌∷◌, ◌++◌, ◌≡◌, refl, arith, ok, err, Result}
use redis_web.Text.{Bytes, codes}
use redis_web.Text.Ascii.{to_ascii_lowercase, hex_digit}
use redis_web.Text.Decimal.{to_string, parse_uint}
use redis_web.Text.Search.{split, rfind}
use redis_web.Text.Utf8.{from_utf8_lossy}
use redis_web.Request.{
  ParseRequestInput, ParsedRequest, RequestParseError, invalid_database_index, select_database,
  take_extension, take_last_extension, finish_request, parse_http_request,
}
use redis_web.Format.{from_extension, content_type_for_extension}
use redis_web.Request.Percent.{percent_decode, percent_decode_segment_lossy}
use redis_web.Request.RoundTrip.{IsText, encode_path, plain_request, parse_http_request-encode_path}

abbrev at_path : Bytes → ParseRequestInput
at_path path = record {
  command_path = path;
  params = λ _. none;
  default_database = 0;
  body = none;
  etag_enabled = true;
}

parsing : ParseRequestInput → Result RequestParseError ParsedRequest
unfolding parse_http_request select_database finish_request take_extension take_last_extension split
    rfind to_ascii_lowercase parse_uint percent_decode percent_decode_segment_lossy
parsing = parse_http_request

split_get : split b'/' (codes "300/GET/k") ≡ codes "300" ∷ codes "GET" ∷ codes "k" ∷ []
unfolding split
split_get = refl

refused_index : parse_http_request (at_path (codes "300/GET/k")) ≡ err invalid_database_index
unfolding parsing
refused_index = refl

abbrev named : Bytes → ℕ → List Bytes → ParsedRequest
named name db args = plain_request (at_path []) db name args

accepted :
    parse_http_request (at_path (codes "7/GET/a%2Fb"))
    ≡ ok (named (codes "GET") 7 (codes "a/b" ∷ []))
unfolding parsing from_utf8_lossy hex_digit content_type_for_extension from_extension
accepted = refl

is_text : (IsText (codes "GET")) × (IsText (codes "a/b"))
unfolding from_utf8_lossy
is_text = (
  ((omega arith, (omega arith, (omega arith, tt))), refl),
  ((omega arith, (omega arith, (omega arith, tt))), refl),
)

parse_http_request-encode_path_example :
    parse_http_request (at_path (encode_path (codes "GET") (codes "a/b" ∷ [])))
    ≡ ok (
        plain_request
          (at_path (encode_path (codes "GET") (codes "a/b" ∷ [])))
          0
          (codes "GET")
          (codes "a/b" ∷ []))
parse_http_request-encode_path_example =
    parse_http_request-encode_path (at_path (encode_path (codes "GET") (codes "a/b" ∷ [])))
      (codes "GET") is_text.0 (codes "a/b" ∷ []) (is_text.1, tt) refl

abbrev prefixed : Bytes
prefixed = to_string 12 ++ b'/' ∷ encode_path (codes "GET") (codes "a/b" ∷ [])
