-- ===== src/Text.antt =====
-- Rust's `str` and `[u8]` as lists of bytes, and the standard library's operations on them that the
-- crates use: tests, ASCII case, search, splitting. Numbers, white space and UTF-8 are modules below.
pub mod Ascii
pub mod Search
pub mod Decimal
pub mod Trim
pub mod Utf8
use Prim.Native.Char.{code}
use Prim.Native.String.{String}
use redis_web.Prelude.{
  ℕ, ◌+◌, Bool, true, false, ◌&&◌, List, [], ◌∷◌, ◌++◌, ◌≡◌, refl, sym, ◌↔◌, ◌≢◌, arith, ◌==◌, leb,
  if◌then◌else◌, Option, none, some, ==_iff, Bool-cases, ◌⊎◌, inl, inr, length,
}

abbrev pub Bytes : Type 0
Bytes = List ℕ

-- The code points of a literal: its bytes, since every literal here is ASCII.
abbrev pub codes : String → Bytes
codes String.[] = []
codes (String.◌∷◌ c s) = code c ∷ codes s

abbrev pub crlf : Bytes
crlf = 13 ∷ 10 ∷ []

abbrev pub eq_bytes : Bytes → Bytes → Bool
eq_bytes [] [] = true
eq_bytes (a ∷ s) (b ∷ t) = (a == b) && eq_bytes s t
eq_bytes _ _ = false

pub eq_bytes_sound : (s t : Bytes) → eq_bytes s t ≡ true → s ≡ t
eq_bytes_sound [] [] h = refl
eq_bytes_sound (a ∷ s) (b ∷ t) h = ground (arith, eq_bytes_sound s t)
eq_bytes_sound [] (b ∷ t) h = cc
eq_bytes_sound (a ∷ s) [] h = cc

pub eq_bytes_refl : (s : Bytes) → eq_bytes s s ≡ true
eq_bytes_refl [] = refl
eq_bytes_refl (a ∷ s) = ground (arith, eq_bytes_refl s)

-- The pair of facts that `ground` needs at a comparison of two texts.
pub eq_bytes_cases :
    (s t : Bytes) → ((eq_bytes s t ≡ true) × (s ≡ t)) ⊎ ((eq_bytes s t ≡ false) × (s ≢ t))
eq_bytes_cases s t = elim (Bool-cases (eq_bytes s t)) [
  | inl e ↦ inl (e, eq_bytes_sound s t e)
  | inr e ↦ inr (e, λ p. cc (eq_bytes_refl t, e, p))
]

-- `strip_prefix`
unfoldable pub strip_prefix : Bytes → Bytes → Option Bytes
strip_prefix [] s = some s
strip_prefix (p ∷ ps) [] = none
strip_prefix (p ∷ ps) (c ∷ s) = elim (p == c) [ true ↦ strip_prefix ps s | false ↦ none ]

pub eq_bytes_sym : (s t : Bytes) → eq_bytes s t ≡ eq_bytes t s
eq_bytes_sym s t = elim (eq_bytes_cases s t) [
  | inl (e, p) ↦ rw (p) refl
  | inr (e, n) ↦ elim (eq_bytes_cases t s) [
    | inl (_, p) ↦ elim (n (sym p)) [ ]
    | inr (d, _) ↦ rw (e, d) refl
  ]
]
