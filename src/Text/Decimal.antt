-- ===== src/Text/Decimal.antt =====
-- Decimal numbers: `to_string` of the unsigned and signed integers, and `parse` of the unsigned ones.
pub mod Laws
use redis_web.Prelude.{
  ℕ, zero, suc, ◌+◌, ◌-◌, ◌*◌, ◌/◌, ◌%◌, ◌^◌, ◌≤◌, ◌<◌, Bool, true, false, ◌&&◌, not, List, [], ◌∷◌,
  ◌++◌, ◌≡◌, refl, sym, ◌∙◌, ap, arith, ◌==◌, ltb, leb, if◌then◌else◌, Option, none, some, All,
  append_assoc, append-nil, Bool-cases, inl, inr,
}
use redis_web.Text.{Bytes, codes}
use redis_web.Text.Ascii.{is_digit}

abbrev pub u8_max : ℕ
u8_max = 255

-- `usize::MAX` and `isize::MAX` of the 64-bit targets
abbrev pub usize_max : ℕ
usize_max = 2 ^ 64 - 1

abbrev pub isize_max : ℕ
isize_max = 2 ^ 63 - 1

-- The digits of `n` in front of `out`, the last digit first; a digit costs one unit of fuel.
emit : ℕ → ℕ → Bytes → Bytes
emit zero n out = out
emit (suc f) n out =
    let d = b'0' + n % 10 in
    let rest = emit f (n / 10) (d ∷ out) in if ltb n 10 then d ∷ out else rest

-- `n.to_string()`; `suc n` digits are more than enough
unfoldable pub to_string : ℕ → Bytes
unfolding emit
to_string n = emit (suc n) n []

-- A signed integer: `negsuc n` is -(n + 1).
pub data ℤ : Type 0 where
  pos : ℕ → ℤ
  negsuc : ℕ → ℤ

unfoldable pub int_to_string : ℤ → Bytes
unfolding to_string
int_to_string (pos n) = to_string n
int_to_string (negsuc n) = b'-' ∷ to_string (suc n)

-- One digit: `checked_mul(10)`, then `checked_add(d)`.
abbrev next : ℕ → ℕ → ℕ → Option ℕ
next top n c =
    if is_digit c
    then (if ltb top (n * 10)
        then none
        else if ltb top (n * 10 + (c - b'0'))
        then none
        else some (n * 10 + (c - b'0')))
    else none

scan : ℕ → Bytes → ℕ → Option ℕ
scan top [] n = some n
scan top (c ∷ s) n = elim (next top n c) [ none ↦ none | some m ↦ scan top s m ]

-- `s.parse()` into an unsigned type with the greatest value `top`: one leading `+` is allowed.
unfoldable pub parse_uint : ℕ → Bytes → Option ℕ
unfolding scan
parse_uint top [] = none
parse_uint top (c ∷ []) = scan top (c ∷ []) 0
parse_uint top (c ∷ d ∷ s) = if c == b'+' then scan top (d ∷ s) 0 else scan top (c ∷ d ∷ s) 0

-- The number that a row of digits stands for.
value_from : ℕ → Bytes → ℕ
value_from n [] = n
value_from n (c ∷ s) = value_from (n * 10 + (c - b'0')) s

unfoldable pub decimal_value : Bytes → ℕ
unfolding value_from
decimal_value s = value_from 0 s

abbrev pub IsDecimal : Bytes → Type 0
IsDecimal = All (λ c. (b'0' ≤ c) × (c ≤ b'9'))
