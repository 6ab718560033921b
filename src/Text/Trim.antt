-- ===== src/Text/Trim.antt =====
-- `str::trim`: white space is the Unicode property, in its UTF-8 bytes.
use redis_web.Prelude.{
  ℕ, zero, suc, ◌≤◌, Bool, ◌&&◌, ◌||◌, [], ◌∷◌, ◌++◌, ◌≡◌, refl, arith, ◌==◌, leb, if◌then◌else◌,
  All, is_empty, length, drop,
}
use redis_web.Text.{Bytes, crlf}

abbrev white1 : ℕ → Bool
white1 a = (leb 9 a && leb a 13) || a == 32

-- U+0085, U+00A0
abbrev white2 : ℕ → ℕ → Bool
white2 a b = a == 0xc2 && (b == 0x85 || b == 0xa0)

-- U+1680, U+2000 to U+200A, U+2028, U+2029, U+202F, U+205F, U+3000
abbrev white3 : ℕ → ℕ → ℕ → Bool
white3 a b c =
    (a == 0xe1 && (b == 0x9a && c == 0x80))
    || (a == 0xe2
        && b == 0x80
        && ((leb 0x80 c && leb c 0x8a) || (c == 0xa8 || (c == 0xa9 || c == 0xaf))))
    || (a == 0xe2 && (b == 0x81 && c == 0x9f))
    || (a == 0xe3 && (b == 0x80 && c == 0x80))

-- the length of the white space character that a text begins with, 0 if there is none
white_len : Bytes → ℕ
white_len [] = 0
white_len (a ∷ []) = if white1 a then 1 else 0
white_len (a ∷ b ∷ []) = if white1 a then 1 else if white2 a b then 2 else 0
white_len (a ∷ b ∷ c ∷ _) =
    if white1 a then 1 else if white2 a b then 2 else if white3 a b c then 3 else 0

-- each round drops a character, so a unit of fuel for each byte is enough
skip_white : ℕ → Bytes → Bytes
skip_white zero s = s
skip_white (suc f) s = elim (white_len s) [ zero ↦ s | suc n ↦ skip_white f (drop (suc n) s) ]

unfoldable pub trim_start : Bytes → Bytes
unfolding skip_white white_len
trim_start s = skip_white (length s) s

-- What follows the last character that is not white space is dropped. No byte inside a character
-- begins white space, so the test may be made at every byte.
unfoldable pub trim_end : Bytes → Bytes
unfolding trim_start
trim_end [] = []
trim_end (c ∷ s) = let rest = trim_end s in if is_empty (trim_start (c ∷ s)) then [] else c ∷ rest

unfoldable pub trim : Bytes → Bytes
unfolding trim_start trim_end
trim s = trim_end (trim_start s)

abbrev pub IsPlain : ℕ → Type 0
IsPlain c = (33 ≤ c) × (c ≤ 126)

white_len-IsPlain : (c : ℕ) (s : Bytes) → IsPlain c → white_len (c ∷ s) ≡ 0
unfolding white_len
white_len-IsPlain c [] h = ground arith
white_len-IsPlain c (a ∷ []) h = ground arith
white_len-IsPlain c (a ∷ b ∷ s) h = ground arith

trim_start-IsPlain : (c : ℕ) (s : Bytes) → IsPlain c → trim_start (c ∷ s) ≡ c ∷ s
unfolding trim_start
trim_start-IsPlain c s h = ground (arith, white_len-IsPlain c s h)

trim_end-crlf : (s : Bytes) → All IsPlain s → trim_end (s ++ crlf) ≡ s
unfolding trim_end
trim_end-crlf [] h = refl
trim_end-crlf (c ∷ s) (hc, h) =
    ground (arith, trim_start-IsPlain c (s ++ crlf) hc, trim_end-crlf s h)

-- Trimming a line of visible ASCII takes off its CRLF and nothing else.
pub trim-crlf : (s : Bytes) → All IsPlain s → trim (s ++ crlf) ≡ s
unfolding trim
trim-crlf [] h = refl
trim-crlf (c ∷ s) (hc, h) =
    ground (arith, trim_start-IsPlain c (s ++ crlf) hc, trim_end-crlf (c ∷ s) (hc, h))
