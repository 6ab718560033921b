-- ===== src/Request.antt =====
-- crates/redis-web-core/src/request.rs, and the types of crates/redis-web-core/src/interfaces.rs: the
-- Redis command, the output format and the options that an HTTP request stands for.
pub mod Percent
pub mod Database
pub mod RoundTrip
mod Tests
use redis_web.Prelude.{
  ℕ, zero, suc, ◌+◌, ◌*◌, ◌≤◌, Bool, true, false, not, ◌&&◌, ◌||◌, Option, none, some, List, [],
  ◌∷◌, ◌++◌, map, if◌then◌else◌, Result, ok, err, ◌>>=◌, ok_or, unwrap_or, is_empty, all, take,
  drop,
}
use redis_web.Text.{Bytes, codes}
use redis_web.Text.Ascii.{is_digit, to_ascii_lowercase}
use redis_web.Text.Search.{split, rfind}
use redis_web.Text.Decimal.{u8_max, parse_uint}
use redis_web.Format.{
  Params, non_empty, OutputFormat, json, from_extension, content_type_for_extension,
  select_jsonp_callback,
}
use Percent.{percent_decode_segment_lossy}

pub record ParseRequestInput : Type 0 where
  pub command_path : Bytes
  pub params : Params
  pub default_database : ℕ
  pub body : Option Bytes
  pub etag_enabled : Bool

pub record ExecutableCommand : Type 0 where
  pub target_database : ℕ
  pub command_name : Bytes
  pub args : List Bytes

pub record ParsedRequest : Type 0 where
  pub command : ExecutableCommand
  pub output_format : OutputFormat
  pub jsonp_callback : Option Bytes
  pub content_type_override : Option Bytes
  pub extension_content_type : Option Bytes
  pub etag_enabled : Bool

pub data RequestParseError : Type 0 where
  empty_command invalid_database_index missing_command_after_database_prefix : RequestParseError
  invalid_command : Bytes → RequestParseError

abbrev pub is_decimal_segment : Bytes → Bool
is_decimal_segment segment = not (is_empty segment) && all is_digit segment

-- The segments behind a database prefix, which must begin with a command.
abbrev pub after_prefix : ℕ → List Bytes → Result RequestParseError (ℕ × Bytes × List Bytes)
after_prefix db [] = err missing_command_after_database_prefix
after_prefix db (name ∷ args) =
    if is_empty name then err missing_command_after_database_prefix else ok (db, name, args)

-- The database, the raw command name and the raw arguments.
unfoldable pub select_database : ℕ → List Bytes → Result RequestParseError (ℕ × Bytes × List Bytes)
select_database default [] = err empty_command
select_database default (first ∷ rest) =
    if is_decimal_segment first
    then (do db ← ok_or (parse_uint u8_max first) invalid_database_index; after_prefix db rest)
    else ok (default, first, rest)

abbrev pub is_some {ℓ} : {A : Type ℓ} → Option A → Bool
is_some none = false
is_some (some a) = true

-- Is the text behind the last dot a suffix that the program knows?
abbrev is_known : Bytes → Bool
is_known ext = is_some (from_extension ext) || is_some (content_type_for_extension ext)

-- A segment and the known suffix that is taken off it.
unfoldable pub take_extension : Bytes → Bytes × Option Bytes
take_extension segment = elim (rfind b'.' segment) [
  | none ↦ (segment, none)
  | some idx ↦
      let candidate = to_ascii_lowercase (drop (suc idx) segment) in
      if is_known candidate then (take idx segment, some candidate) else (segment, none)
]

-- `last_mut()`: the suffix is looked for in the last argument, or in the command if there is none.
unfoldable pub take_last_extension : List Bytes → List Bytes × Option Bytes
unfolding take_extension
take_last_extension [] = ([], none)
take_last_extension (arg ∷ []) = let (kept, ext) = take_extension arg in (kept ∷ [], ext)
take_last_extension (arg ∷ more ∷ args) =
    let (kept, ext) = take_last_extension (more ∷ args) in (arg ∷ kept, ext)

abbrev with_extension : Bytes → List Bytes → Bytes × List Bytes × Option Bytes
with_extension name [] = let (kept, ext) = take_extension name in (kept, [], ext)
with_extension name (arg ∷ args) =
    let (kept, ext) = take_last_extension (arg ∷ args) in (name, kept, ext)

abbrev bind_option {ℓ κ} : {A : Type ℓ} {B : Type κ} → Option A → (A → Option B) → Option B
bind_option none f = none
bind_option (some a) f = f a

-- a non-empty body is the last argument
abbrev pub body_args : Option Bytes → List Bytes
body_args body = elim (non_empty body) [ none ↦ [] | some b ↦ b ∷ [] ]

abbrev jsonp_for : OutputFormat → Params → Option Bytes
jsonp_for json params = select_jsonp_callback params
jsonp_for _ params = none

unfoldable pub finish_request : ParseRequestInput → ℕ × Bytes × List Bytes → ParsedRequest
finish_request input (db, raw_cmd_name, raw_args) =
    let (name, args, extension) = with_extension raw_cmd_name raw_args in
    let output_format : OutputFormat = unwrap_or (bind_option extension from_extension) json in
    record {
      command = record {
        target_database = db;
        command_name = percent_decode_segment_lossy name;
        args = map percent_decode_segment_lossy args ++ body_args input.body;
      };
      output_format = output_format;
      jsonp_callback = jsonp_for output_format input.params;
      content_type_override = non_empty (input.params (codes "type"));
      extension_content_type = bind_option extension content_type_for_extension;
      etag_enabled = input.etag_enabled;
    }

unfoldable pub parse_http_request : ParseRequestInput → Result RequestParseError ParsedRequest
parse_http_request input = do
  parts ← select_database input.default_database (split b'/' input.command_path)
  ok (finish_request input parts)
