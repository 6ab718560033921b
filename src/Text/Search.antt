-- ===== src/Text/Search.antt =====
-- `split`, `rfind`, `trim_start_matches` and `contains` of Rust's `str`, at an ASCII byte or text.
use redis_web.Prelude.{
  ℕ, suc, Bool, true, false, ◌||◌, List, [], ◌∷◌, ◌++◌, ◌≡◌, ◌≢◌, refl, arith, ◌==◌, if◌then◌else◌,
  Option, none, some, All, length,
}
use redis_web.Text.{Bytes, strip_prefix}

abbrev pub Lacks : ℕ → Bytes → Type 0
Lacks b = All (λ c. c ≢ b)

-- the first part, and the parts behind it
abbrev push_front : ℕ → List Bytes → List Bytes
push_front c [] = (c ∷ []) ∷ []
push_front c (p ∷ ps) = (c ∷ p) ∷ ps

-- `s.split(sep)`: always at least one part
unfoldable pub split : ℕ → Bytes → List Bytes
split sep [] = [] ∷ []
split sep (c ∷ s) = let parts = split sep s in if c == sep then [] ∷ parts else push_front c parts

unfoldable pub rfind : ℕ → Bytes → Option ℕ
rfind b [] = none
rfind b (c ∷ s) = elim (rfind b s) [
  | some i ↦ some (suc i)
  | none ↦ if c == b then some 0 else none
]

unfoldable pub trim_start_matches : ℕ → Bytes → Bytes
trim_start_matches b [] = []
trim_start_matches b (c ∷ s) = elim (c == b) [ true ↦ trim_start_matches b s | false ↦ c ∷ s ]

abbrev is_some {ℓ} : {A : Type ℓ} → Option A → Bool
is_some none = false
is_some (some a) = true

unfoldable pub contains : Bytes → Bytes → Bool
unfolding strip_prefix
contains pat [] = is_some (strip_prefix pat [])
contains pat (c ∷ s) = is_some (strip_prefix pat (c ∷ s)) || contains pat s

pub split-ne-nil : (sep : ℕ) (s : Bytes) → split sep s ≢ []
unfolding split
split-ne-nil sep [] = cc
split-ne-nil sep (c ∷ s) = ground (arith, split-ne-nil sep s)

pub split_parts :
    (sep : ℕ) (s : Bytes) → (first : Bytes) × (rest : List Bytes) × (split sep s ≡ first ∷ rest)
split_parts sep s = go (split sep s) (split-ne-nil sep s)
  where
    go :
        (parts : List Bytes)
        → parts ≢ []
        → (first : Bytes) × (rest : List Bytes) × (parts ≡ first ∷ rest)
    go [] ne = absurd (ne refl)
    go (first ∷ rest) ne = (first, rest, refl)

pub split-append :
    (sep : ℕ) (p s : Bytes) → Lacks sep p → split sep (p ++ sep ∷ s) ≡ p ∷ split sep s
unfolding split
split-append sep [] s h = ground arith
split-append sep (c ∷ p) s (hc, h) = ground (arith, split-append sep p s h)

pub split-Lacks : (sep : ℕ) (p : Bytes) → Lacks sep p → split sep p ≡ p ∷ []
unfolding split
split-Lacks sep [] h = refl
split-Lacks sep (c ∷ p) (hc, h) = ground (arith, split-Lacks sep p h)

-- a byte that a text lacks is not found in it
pub rfind-Lacks : (b : ℕ) (s : Bytes) → Lacks b s → rfind b s ≡ none
unfolding rfind
rfind-Lacks b [] h = refl
rfind-Lacks b (c ∷ s) (hc, h) = ground (arith, rfind-Lacks b s h)

pub rfind-append : (b : ℕ) (s t : Bytes) → Lacks b t → rfind b (s ++ b ∷ t) ≡ some (length s)
unfolding rfind
rfind-append b [] t h = ground (arith, rfind-Lacks b t h)
rfind-append b (c ∷ s) t h = ground (arith, rfind-append b s t h)
