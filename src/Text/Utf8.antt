-- ===== src/Text/Utf8.antt =====
-- UTF-8 validity and `String::from_utf8_lossy`: a text is cut into characters and invalid pieces, as
-- `Utf8Chunks` of the standard library does.
pub mod Ascii
use redis_web.Prelude.{
  ℕ, zero, suc, ◌+◌, ◌≤◌, ◌<◌, Bool, true, false, ◌&&◌, ◌||◌, List, [], ◌∷◌, ◌++◌, ◌≡◌, refl, arith,
  ◌==◌, leb, ltb, if◌then◌else◌, All, length, drop, take,
}
use redis_web.Text.{Bytes}

-- `safe_get`: 0 out of range
abbrev at0 : Bytes → ℕ
at0 [] = 0
at0 (c ∷ _) = c

abbrev at1 : Bytes → ℕ
at1 [] = 0
at1 (_ ∷ s) = at0 s

abbrev at2 : Bytes → ℕ
at2 [] = 0
at2 (_ ∷ s) = at1 s

-- `b & 192 == 128`
abbrev is_tail : ℕ → Bool
is_tail b = leb 0x80 b && leb b 0xbf

-- the second byte that the first of three allows
abbrev second3 : ℕ → ℕ → Bool
second3 a b =
    (a == 0xe0 && (leb 0xa0 b && leb b 0xbf))
    || (leb 0xe1 a && leb a 0xec && is_tail b)
    || (a == 0xed && (leb 0x80 b && leb b 0x9f))
    || (leb 0xee a && leb a 0xef && is_tail b)

-- the second byte that the first of four allows
abbrev second4 : ℕ → ℕ → Bool
second4 a b =
    (a == 0xf0 && (leb 0x90 b && leb b 0xbf))
    || (leb 0xf1 a && leb a 0xf3 && is_tail b)
    || (a == 0xf4 && (leb 0x80 b && leb b 0x8f))

-- What a text that begins with the byte `a` begins with: a character or an invalid piece, and the
-- number of the bytes of it behind `a`.
pub data Piece : Type 0 where
  character invalid : ℕ → Piece

unfoldable pub piece : ℕ → Bytes → Piece
piece a s =
    if ltb a 0x80
    then character 0
    else if leb 0xc2 a && leb a 0xdf
    then (if is_tail (at0 s) then character 1 else invalid 0)
    else if leb 0xe0 a && leb a 0xef
    then (if second3 a (at0 s)
        then (if is_tail (at1 s) then character 2 else invalid 1)
        else invalid 0)
    else if leb 0xf0 a && leb a 0xf4
    then (if second4 a (at0 s)
        then (if is_tail (at1 s)
            then (if is_tail (at2 s) then character 3 else invalid 2)
            else invalid 1)
        else invalid 0)
    else invalid 0

-- U+FFFD
abbrev replacement : Bytes
replacement = 0xef ∷ 0xbf ∷ 0xbd ∷ []

-- Each round takes a byte or more, so a unit of fuel for each byte is enough.
lossy : ℕ → Bytes → Bytes
lossy zero s = []
lossy (suc f) [] = []
lossy (suc f) (a ∷ s) = elim (piece a s) [
  | character n ↦ a ∷ (take n s ++ lossy f (drop n s))
  | invalid n ↦ replacement ++ lossy f (drop n s)
]

valid : ℕ → Bytes → Bool
valid zero s = true
valid (suc f) [] = true
valid (suc f) (a ∷ s) = elim (piece a s) [ character n ↦ valid f (drop n s) | invalid n ↦ false ]

unfoldable pub from_utf8_lossy : Bytes → Bytes
unfolding lossy piece
from_utf8_lossy s = lossy (length s) s

unfoldable pub is_utf8 : Bytes → Bool
unfolding valid piece
is_utf8 s = valid (length s) s
