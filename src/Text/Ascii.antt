-- ===== src/Text/Ascii.antt =====
-- ASCII classes and case, as in `char::is_ascii_*`, `to_ascii_lowercase` and `to_digit(16)`.
use redis_web.Prelude.{
  ℕ, ◌+◌, ◌-◌, Bool, true, false, ◌&&◌, [], ◌∷◌, map, ◌≡◌, refl, ◌==◌, leb, if◌then◌else◌, Option,
  none, some,
}
use redis_web.Text.{Bytes, eq_bytes}

abbrev pub is_digit : ℕ → Bool
is_digit c = leb b'0' c && leb c b'9'

abbrev pub is_upper : ℕ → Bool
is_upper c = leb b'A' c && leb c b'Z'

abbrev pub is_lower : ℕ → Bool
is_lower c = leb b'a' c && leb c b'z'

unfoldable pub lower : ℕ → ℕ
lower c = if is_upper c then c + 32 else c

unfoldable pub upper : ℕ → ℕ
upper c = if is_lower c then c - 32 else c

unfoldable pub to_ascii_lowercase : Bytes → Bytes
unfolding lower
to_ascii_lowercase s = map lower s

unfoldable pub to_ascii_uppercase : Bytes → Bytes
unfolding upper
to_ascii_uppercase s = map upper s

unfoldable pub eq_ignore_ascii_case : Bytes → Bytes → Bool
unfolding lower
eq_ignore_ascii_case [] [] = true
eq_ignore_ascii_case (a ∷ s) (b ∷ t) = (lower a == lower b) && eq_ignore_ascii_case s t
eq_ignore_ascii_case _ _ = false

-- `to_digit(16)`
unfoldable pub hex_digit : ℕ → Option ℕ
hex_digit c =
    if is_digit c
    then some (c - b'0')
    else if leb b'a' c && leb c b'f'
    then some (c - b'a' + 10)
    else if leb b'A' c && leb c b'F'
    then some (c - b'A' + 10)
    else none

-- Case-insensitive equality is equality of the lower-case forms.
pub eq_ignore_ascii_case-eq_bytes :
    (s t : Bytes)
    → eq_ignore_ascii_case s t ≡ eq_bytes (to_ascii_lowercase s) (to_ascii_lowercase t)
unfolding eq_ignore_ascii_case to_ascii_lowercase
eq_ignore_ascii_case-eq_bytes [] [] = refl
eq_ignore_ascii_case-eq_bytes (a ∷ s) (b ∷ t) =
    λ i. (lower a == lower b) && eq_ignore_ascii_case-eq_bytes s t i
eq_ignore_ascii_case-eq_bytes [] (b ∷ t) = refl
eq_ignore_ascii_case-eq_bytes (a ∷ s) [] = refl
