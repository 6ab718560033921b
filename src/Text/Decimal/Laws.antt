-- ===== src/Text/Decimal/Laws.antt =====
-- Printing and parsing decimal numbers.
use redis_web.Prelude.{
  ℕ, zero, suc, ◌+◌, ◌-◌, ◌*◌, ◌/◌, ◌%◌, ◌≤◌, ◌<◌, [], ◌∷◌, ◌≡◌, ◌≢◌, refl, ◌∙◌, arith, leb,
  if◌then◌else◌, none, some,
}
use redis_web.Text.{Bytes}
use redis_web.Text.Decimal.{
  emit, to_string, next, scan, parse_uint, value_from, decimal_value, IsDecimal,
}

abbrev IsDigit : ℕ → Type 0
IsDigit c = (b'0' ≤ c) × (c ≤ b'9')

next_lem :
    (top n c : ℕ)
    → IsDigit c
    → next top n c ≡ (if leb (n * 10 + (c - b'0')) top then some (n * 10 + (c - b'0')) else none)
next_lem top n c h = ground arith

value_from_grows : (n : ℕ) (s : Bytes) → n ≤ value_from n s
unfolding value_from
value_from_grows n [] = omega arith
value_from_grows n (c ∷ s) = omega (arith, value_from_grows (n * 10 + (c - b'0')) s)

scan_lem :
    (top n : ℕ) (s : Bytes)
    → IsDecimal s
    → n ≤ top
    → scan top s n ≡ (if leb (value_from n s) top then some (value_from n s) else none)
unfolding scan value_from
scan_lem top n [] h le = ground arith
scan_lem top n (c ∷ s) (hc, h) le =
    let m = n * 10 + (c - b'0') in
    ground (arith, next_lem top n c hc, scan_lem top m s h, value_from_grows m s)

-- A row of digits is parsed to its value, unless that passes the greatest value of the type.
pub parse_uint_decimal :
    (top : ℕ) (s : Bytes)
    → IsDecimal s
    → s ≢ []
    → parse_uint top s ≡ (if leb (decimal_value s) top then some (decimal_value s) else none)
unfolding parse_uint decimal_value
parse_uint_decimal top [] h ne = absurd (ne refl)
parse_uint_decimal top (c ∷ []) h ne = scan_lem top 0 (c ∷ []) h (omega arith)
parse_uint_decimal top (c ∷ d ∷ s) h ne = ground (arith, scan_lem top 0 (c ∷ d ∷ s) h (omega arith))

emit-IsDecimal : (f n : ℕ) (out : Bytes) → IsDecimal out → IsDecimal (emit f n out)
unfolding emit
emit-IsDecimal zero n out h = h
emit-IsDecimal (suc f) n out h =
    let d = b'0' + n % 10 in
    ground (arith, emit-IsDecimal f (n / 10) (d ∷ out) ((omega arith, omega arith), h))

value_from-emit : (f n : ℕ) (out : Bytes) → n < f → value_from 0 (emit f n out) ≡ value_from n out
unfolding emit value_from
value_from-emit zero n out h = absurd (omega arith)
value_from-emit (suc f) n out h =
    let d = b'0' + n % 10 in ground (arith, value_from-emit f (n / 10) (d ∷ out))

emit-ne-nil : (f n : ℕ) (out : Bytes) → out ≢ [] → emit f n out ≢ []
unfolding emit
emit-ne-nil zero n out h = h
emit-ne-nil (suc f) n out h = ground (arith, emit-ne-nil f (n / 10) ((b'0' + n % 10) ∷ out))

pub to_string-IsDecimal : (n : ℕ) → IsDecimal (to_string n)
unfolding to_string
to_string-IsDecimal n = emit-IsDecimal (suc n) n [] tt

pub to_string-ne-nil : (n : ℕ) → to_string n ≢ []
unfolding to_string emit
to_string-ne-nil n = ground (arith, emit-ne-nil n (n / 10) ((b'0' + n % 10) ∷ []))

pub decimal_value-to_string : (n : ℕ) → decimal_value (to_string n) ≡ n
unfolding to_string decimal_value
decimal_value-to_string n = value_from-emit (suc n) n [] (omega arith) ∙ (unfold value_from in refl)

-- Printing and parsing give the number back, if it is in range.
pub parse_uint-to_string : (top n : ℕ) → n ≤ top → parse_uint top (to_string n) ≡ some n
parse_uint-to_string top n h = ground (
  arith,
  parse_uint_decimal top (to_string n) (to_string-IsDecimal n) (to_string-ne-nil n),
  decimal_value-to_string n,
)
