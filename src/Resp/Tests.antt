-- ===== src/Resp/Tests.antt =====
-- Runs of the parser and the printer.
use redis_web.Prelude.{ℕ, ◌≤◌, ◌<◌, List, [], ◌∷◌, ◌++◌, ◌≡◌, refl, arith, length}
use redis_web.Text.{Bytes, codes}
use redis_web.Text.Decimal.{pos}
use redis_web.Text.Trim.{trim}
use redis_web.Text.Utf8.{is_utf8}
use redis_web.Text.Decimal.{parse_uint, to_string, int_to_string}
use redis_web.Resp.Reply.{value_to_resp, array, value, no_values, int, okay}
use redis_web.Resp.Command.{
  read_line, header, allocate, read_exact, expect_crlf, parse_arg, parse_args, parse_command,
  Parsed, done, need_more, bad, invalid_format, capacity_overflow,
}
use redis_web.Resp.RoundTrip.{Fits, command, parse_command-value_to_resp}
use redis_web.Resp.Progress.{parse_command_progress}
use redis_web.Resp.Streaming.{parse_command-append}
use redis_web.Resp.Partial.{CutFits}

prints_array :
    value_to_resp (array (value (int (pos 1)) (value okay no_values))) ≡ codes "*2\r\n:1\r\n+OK\r\n"
unfolding value_to_resp to_string int_to_string
prints_array = refl

-- `parse_command` with all that it calls open
run : Bytes → Parsed (List Bytes × ℕ)
unfolding parse_command parse_args parse_arg read_line header allocate read_exact expect_crlf trim
    is_utf8 parse_uint
run = parse_command

parses_get :
    run (codes "*2\r\n$3\r\nGET\r\n$4\r\nNAME\r\n") ≡ done (codes "GET" ∷ codes "NAME" ∷ [], 23)
unfolding run
parses_get = refl

needs_more : run (codes "*2\r\n$3\r\nGET\r\n") ≡ need_more
unfolding run
needs_more = refl

huge_count : run (codes "*9999999999999999999\r\n") ≡ capacity_overflow
unfolding run
huge_count = refl

star_alone : run (codes "*") ≡ bad invalid_format
unfolding run
star_alone = refl

get_name : List Bytes
get_name = codes "GET" ∷ codes "NAME" ∷ []

get_request : Bytes
get_request = codes "*2\r\n$3\r\nGET\r\n$4\r\nNAME\r\n"

parsed_get : parse_command get_request ≡ done (get_name, 23)
unfolding run get_request get_name
parsed_get = refl

get_name-Fits : Fits get_name
unfolding get_name
get_name-Fits = (omega arith, (omega arith, (omega arith, tt)))

parse_command-value_to_resp_example :
    parse_command (value_to_resp (command get_name) ++ codes "*1")
    ≡ done (get_name, length (value_to_resp (command get_name)))
parse_command-value_to_resp_example =
    parse_command-value_to_resp get_name (codes "*1") get_name-Fits

parse_command_progress_example : (0 < 23) × (23 ≤ length get_request)
parse_command_progress_example = parse_command_progress get_request get_name 23 parsed_get

parse_command-append_example : parse_command (get_request ++ codes "*1\r\n") ≡ done (get_name, 23)
parse_command-append_example =
    parse_command-append get_request (codes "*1\r\n") get_name 23 (unfold get_name in cc) parsed_get

get_name-CutFits : CutFits get_name 0
unfolding get_name
get_name-CutFits = (omega arith, (omega arith, (omega arith, tt)))
