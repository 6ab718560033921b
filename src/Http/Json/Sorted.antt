-- ===== src/Http/Json/Sorted.antt =====
-- The order of the keys in `serde_json::Map`, and lookups after an insertion.
use redis_web.Prelude.{
  true, false, none, some, [], ◌∷◌, ◌≡◌, ◌≢◌, refl, ap, sym, ◌∙◌, arith, if◌then◌else◌, Bool-cases,
  inl, inr,
}
use redis_web.Text.{Bytes, eq_bytes, eq_bytes_cases}
use redis_web.Http.Json.{Json, Members, no_members, member, lt_bytes, get, insert}

lt_bytes_trans : (s t u : Bytes) → lt_bytes s t ≡ true → lt_bytes t u ≡ true → lt_bytes s u ≡ true
unfolding lt_bytes
lt_bytes_trans s t [] h k = cc
lt_bytes_trans s [] (c ∷ u) h k = cc
lt_bytes_trans [] (b ∷ t) (c ∷ u) h k = refl
lt_bytes_trans (a ∷ s) (b ∷ t) (c ∷ u) h k = ground (arith, lt_bytes_trans s t u)

lt_bytes_irrefl : (s : Bytes) → lt_bytes s s ≡ false
unfolding lt_bytes
lt_bytes_irrefl [] = refl
lt_bytes_irrefl (a ∷ s) = ground (arith, lt_bytes_irrefl s)

pub lt_bytes_total :
    (s t : Bytes) → lt_bytes s t ≡ false → eq_bytes t s ≡ false → lt_bytes t s ≡ true
unfolding lt_bytes
lt_bytes_total [] [] h k = cc
lt_bytes_total [] (b ∷ t) h k = cc
lt_bytes_total (a ∷ s) [] h k = refl
lt_bytes_total (a ∷ s) (b ∷ t) h k = ground (arith, lt_bytes_total s t)

-- every key is above a bound, and each above the one before it
abbrev pub IsAbove : Bytes → Members → Type 0
IsAbove b no_members = Unit
IsAbove b (member k v ms) = (lt_bytes b k ≡ true) × IsAbove k ms

abbrev pub IsSorted : Members → Type 0
IsSorted no_members = Unit
IsSorted (member k v ms) = IsAbove k ms

pub IsAbove-IsSorted : (b : Bytes) (m : Members) → IsAbove b m → IsSorted m
IsAbove-IsSorted b no_members _ = _
IsAbove-IsSorted b (member k v ms) (_, h) = h

pub IsAbove-weaken : (a b : Bytes) (m : Members) → lt_bytes a b ≡ true → IsAbove b m → IsAbove a m
IsAbove-weaken a b no_members l h = _
IsAbove-weaken a b (member k v ms) l (h, hs) = (lt_bytes_trans a b k l h, hs)

pub get_IsAbove : (b : Bytes) (m : Members) → IsAbove b m → get b m ≡ none
unfolding get
get_IsAbove b no_members h = refl
get_IsAbove b (member k v ms) (h, hs) = elim (eq_bytes_cases k b) [
  | inl (e, p) ↦ cc (h, lt_bytes_irrefl b, p)
  | inr (e, n) ↦ rw (e) (get_IsAbove b ms (IsAbove-weaken b k ms h hs))
]

insert-IsAbove :
    (b key : Bytes) (v : Json) (m : Members)
    → lt_bytes b key ≡ true
    → IsAbove b m
    → IsAbove b (insert key v m)
unfolding insert
insert-IsAbove b key v no_members l h = (l, _)
insert-IsAbove b key v (member k w ms) l (h, hs) = elim (eq_bytes_cases k key) [
  | inl (e, p) ↦ rw (e) (l, rw (sym p) hs)
  | inr (e, n) ↦ elim (Bool-cases (lt_bytes key k)) [
    | inl lt ↦ rw (e, lt) (l, (lt, hs))
    | inr ge ↦ rw (e, ge) (h, insert-IsAbove k key v ms (lt_bytes_total key k ge e) hs)
  ]
]

pub insert-IsSorted :
    (key : Bytes) (v : Json) (m : Members) → IsSorted m → IsSorted (insert key v m)
unfolding insert
insert-IsSorted key v no_members h = _
insert-IsSorted key v (member k w ms) hs = elim (eq_bytes_cases k key) [
  | inl (e, p) ↦ rw (e) (rw (sym p) hs)
  | inr (e, n) ↦ elim (Bool-cases (lt_bytes key k)) [
    | inl lt ↦ rw (e, lt) (lt, hs)
    | inr ge ↦ rw (e, ge) (insert-IsAbove k key v ms (lt_bytes_total key k ge e) hs)
  ]
]

pub differs : {s t : Bytes} → s ≢ t → eq_bytes s t ≡ false
differs {s = s} {t = t} n = elim (eq_bytes_cases s t) [
  | inl (_, p) ↦ elim (n p) [ ]
  | inr (e, _) ↦ e
]

-- the key that was inserted has the value, and the others are as before
pub get-insert :
    (k key : Bytes) (v : Json) (m : Members)
    → get k (insert key v m) ≡ (if eq_bytes key k then some v else get k m)
unfolding get insert
get-insert k key v no_members = refl
get-insert k key v (member j w ms) = elim (eq_bytes_cases j key) [
  | inl (e, p) ↦ elim (Bool-cases (eq_bytes key k)) [
    | inl q ↦ rw (e, q) refl
    | inr q ↦ rw (e, q, ap (λ x. eq_bytes x k) p ∙ q) refl
  ]
  | inr (e, n) ↦ elim (Bool-cases (lt_bytes key j)) [
    | inl lt ↦ rw (e, lt) refl
    | inr ge ↦
        rw (e, ge)
          (elim (eq_bytes_cases j k) [
            | inl (d, q) ↦ rw (d, differs (λ p. n (q ∙ sym p))) refl
            | inr (d, _) ↦ rw (d) (get-insert k key v ms)
          ])
  ]
]
