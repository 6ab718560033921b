-- ===== src/Request/Percent.antt =====
-- `percent_decode_segment_lossy` of crates/redis-web-core/src/request.rs.
use redis_web.Prelude.{
  ℕ, ◌+◌, ◌*◌, ◌-◌, ◌/◌, ◌%◌, ◌<◌, Option, none, some, [], ◌∷◌, ◌==◌, ltb, if◌then◌else◌, ◌≡◌, ◌≢◌,
  refl, arith, All,
}
use redis_web.Text.{Bytes}
use redis_web.Text.Ascii.{hex_digit}
use redis_web.Text.Utf8.{from_utf8_lossy}

-- The byte that `%hl` stands for: `((hi << 4) | lo) as u8` of two digits below 16.
abbrev escaped : Option ℕ → Option ℕ → Option ℕ
escaped (some hi) (some lo) = some (hi * 16 + lo)
escaped _ _ = none

unfoldable pub percent_decode : Bytes → Bytes
percent_decode [] = []
percent_decode (c ∷ []) = c ∷ []
percent_decode (c ∷ h ∷ []) = c ∷ h ∷ []
percent_decode (c ∷ h ∷ l ∷ s) =
    elim (if c == b'%' then escaped (hex_digit h) (hex_digit l) else none) [
      | some b ↦ b ∷ percent_decode s
      | none ↦ c ∷ percent_decode (h ∷ l ∷ s)
    ]

unfoldable pub percent_decode_segment_lossy : Bytes → Bytes
percent_decode_segment_lossy input = from_utf8_lossy (percent_decode input)

-- The upper-case hexadecimal digit of a number below 16.
abbrev hex : ℕ → ℕ
hex d = if ltb d 10 then b'0' + d else b'A' + (d - 10)

-- A client's encoder: every byte is escaped.
unfoldable pub percent_encode : Bytes → Bytes
percent_encode [] = []
percent_encode (c ∷ s) = b'%' ∷ hex (c / 16) ∷ hex (c % 16) ∷ percent_encode s

abbrev pub IsBytes : Bytes → Type 0
IsBytes = All (λ c. c < 256)

hex_digit-hex : (d : ℕ) → d < 16 → hex_digit (hex d) ≡ some d
unfolding hex_digit
hex_digit-hex d h = ground arith

percent_decode_escape :
    (h l hi lo : ℕ) (s : Bytes)
    → hex_digit h ≡ some hi
    → hex_digit l ≡ some lo
    → percent_decode (b'%' ∷ h ∷ l ∷ s) ≡ (hi * 16 + lo) ∷ percent_decode s
unfolding percent_decode
percent_decode_escape h l hi lo s eh el = ground arith

-- Decoding gives the encoded bytes back.
pub percent_decode-percent_encode : (s : Bytes) → IsBytes s → percent_decode (percent_encode s) ≡ s
unfolding percent_encode
percent_decode-percent_encode [] h = unfold percent_decode in refl
percent_decode-percent_encode (c ∷ s) (hc, h) =
    let step =
      percent_decode_escape (hex (c / 16)) (hex (c % 16)) (c / 16) (c % 16) (percent_encode s)
        (hex_digit-hex (c / 16) (omega arith)) (hex_digit-hex (c % 16) (omega arith)) in
    let byte : c / 16 * 16 + c % 16 ≡ c = omega arith in
    rw (step, percent_decode-percent_encode s h, byte)

-- Decoding a text without escapes changes nothing.
percent_decode_plain : (s : Bytes) → All (λ c. c ≢ b'%') s → percent_decode s ≡ s
unfolding percent_decode
percent_decode_plain [] h = refl
percent_decode_plain (c ∷ []) h = refl
percent_decode_plain (c ∷ d ∷ []) h = refl
percent_decode_plain (c ∷ d ∷ e ∷ s) (hc, h) = ground (arith, percent_decode_plain (d ∷ e ∷ s) h)

-- An encoded text holds `%`, digits and letters alone: neither a slash nor a dot.
pub percent_encode-Lacks :
    (b : ℕ) (s : Bytes) → b'%' < b → b < b'0' → IsBytes s → All (λ c. c ≢ b) (percent_encode s)
unfolding percent_encode
percent_encode-Lacks b [] lo hi h = tt
percent_encode-Lacks b (c ∷ s) lo hi (hc, h) =
    (omega arith, (ground arith, (ground arith, percent_encode-Lacks b s lo hi h)))
