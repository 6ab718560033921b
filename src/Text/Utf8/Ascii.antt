-- ===== src/Text/Utf8/Ascii.antt =====
-- ASCII is valid UTF-8, and the lossy conversion leaves it alone.
use redis_web.Prelude.{ℕ, zero, suc, ◌≤◌, ◌<◌, [], ◌∷◌, true, ◌≡◌, refl, arith, All, length, ap}
use redis_web.Text.{Bytes}
use redis_web.Text.Utf8.{character, piece, valid, lossy, is_utf8, from_utf8_lossy}

abbrev pub IsAscii : Bytes → Type 0
IsAscii = All (λ c. c < 128)

piece-ascii : (a : ℕ) (s : Bytes) → a < 128 → piece a s ≡ character 0
unfolding piece
piece-ascii a s h = ground arith

valid-IsAscii : (f : ℕ) (s : Bytes) → IsAscii s → valid f s ≡ true
unfolding valid
valid-IsAscii zero s h = refl
valid-IsAscii (suc f) [] h = refl
valid-IsAscii (suc f) (a ∷ s) (ha, h) = rw (piece-ascii a s ha, valid) (valid-IsAscii f s h)

lossy-IsAscii : (f : ℕ) (s : Bytes) → length s ≤ f → IsAscii s → lossy f s ≡ s
unfolding lossy
lossy-IsAscii zero [] le h = refl
lossy-IsAscii zero (a ∷ s) le h = absurd (omega arith)
lossy-IsAscii (suc f) [] le h = refl
lossy-IsAscii (suc f) (a ∷ s) le (ha, h) =
    rw (piece-ascii a s ha, lossy) (ap (λ (t : Bytes). a ∷ t) (lossy-IsAscii f s (omega arith) h))

pub is_utf8-IsAscii : (s : Bytes) → IsAscii s → is_utf8 s ≡ true
unfolding is_utf8
is_utf8-IsAscii s h = valid-IsAscii (length s) s h

pub from_utf8_lossy-IsAscii : (s : Bytes) → IsAscii s → from_utf8_lossy s ≡ s
unfolding from_utf8_lossy
from_utf8_lossy-IsAscii s h = lossy-IsAscii (length s) s (omega arith) h
