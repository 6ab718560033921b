-- ===== src/Bench/Keys.antt =====
-- Lookups and keys, for the differences of crates/redis-web-bench/src/spec.rs.
use redis_web.Prelude.{
  Bool, true, false, ◌||◌, Option, none, some, List, [], ◌∷◌, any, ◌≡◌, ◌≢◌, refl, ap, sym, ◌∙◌,
  arith, subst, Bool-cases, inl, inr, ◌⊎◌,
}
use redis_web.Text.{Bytes, eq_bytes, eq_bytes_cases, eq_bytes_refl, eq_bytes_sym}
use redis_web.Http.Json.{Json, Members, no_members, member, lt_bytes, get}
use redis_web.Http.Json.Sorted.{IsAbove, IsSorted, IsAbove-IsSorted, get_IsAbove, lt_bytes_total}
use redis_web.Bench.Spec.{eq_json, eq_members, insert_key, insert_keys}

-- do two lookups agree?
abbrev pub same_value : Option Json → Option Json → Bool
same_value none none = true
same_value (some v) (some w) = eq_json v w
same_value _ _ = false

found : (k : Bytes) (v : Json) (ms : Members) → get k (member k v ms) ≡ some v
unfolding get
found k v ms = rw (eq_bytes_refl k) refl

passed :
    (k x : Bytes) (v : Json) (ms : Members)
    → eq_bytes k x ≡ false
    → get x (member k v ms) ≡ get x ms
unfolding get
passed k x v ms d = rw (d) refl

abbrev pub is_some {ℓ} : {A : Type ℓ} → Option A → Bool
is_some none = false
is_some (some _) = true

-- Two maps in order of their keys are equal if all their lookups agree.
pub eq_members-same_value :
    (ms ns : Members)
    → IsSorted ms
    → IsSorted ns
    → ((k : Bytes) → same_value (get k ms) (get k ns) ≡ true)
    → eq_members ms ns ≡ true
unfolding eq_json get
eq_members-same_value no_members no_members hm hn h = refl
eq_members-same_value no_members (member j w ns) hm hn h =
    cc (h j, ap (same_value none) (found j w ns))
eq_members-same_value (member k v ms) no_members hm hn h =
    cc (h k, ap (λ o. same_value o none) (found k v ms))
eq_members-same_value (member k v ms) (member j w ns) hm hn h = elim (eq_bytes_cases k j) [
  | inl (e, p) ↦
      rw (e, values p)
        (eq_members-same_value ms ns (IsAbove-IsSorted k ms hm) (IsAbove-IsSorted j ns hn)
          (λ x. others p x (eq_bytes_cases k x)))
  | inr (e, n) ↦ elim (Bool-cases (lt_bytes k j)) [
    | inl lt ↦ cc (
      h k,
      ap (λ o. same_value o (get k (member j w ns))) (found k v ms),
      ap (same_value (some v)) (absent k j w ns lt hn),
    )
    | inr ge ↦ cc (
      h j,
      ap (λ o. same_value (get j (member k v ms)) o) (found j w ns),
      ap (λ o. same_value o (some w))
          (absent j k v ms (lt_bytes_total k j ge (eq_bytes_sym j k ∙ e)) hm),
    )
  ]
]
  where
    absent :
        (x y : Bytes) (u : Json) (os : Members)
        → lt_bytes x y ≡ true
        → IsAbove y os
        → get x (member y u os) ≡ none
    absent x y u os lt above = get_IsAbove x (member y u os) (lt, above)

    values : k ≡ j → eq_json v w ≡ true
    values p =
        sym (ap (same_value (some v)) (ap (λ x. get x (member j w ns)) p ∙ found j w ns))
        ∙ (sym (ap (λ o. same_value o (get k (member j w ns))) (found k v ms)) ∙ h k)

    others :
        k ≡ j
        → (x : Bytes) → ((eq_bytes k x ≡ true) × (k ≡ x)) ⊎ ((eq_bytes k x ≡ false) × (k ≢ x))
        → same_value (get x ms) (get x ns) ≡ true
    others p x (inl (_, q)) =
        rw
          (
            get_IsAbove x ms (subst (λ y. IsAbove y ms) q hm),
            get_IsAbove x ns (subst (λ y. IsAbove y ns) (sym p ∙ q) hn),
          )
          refl
    others p x (inr (d, _)) =
        sym (ap (λ o. same_value o (get x ns)) (passed k x v ms d))
        ∙ (sym (
              ap (same_value (get x (member k v ms)))
                (passed j x w ns (ap (λ y. eq_bytes y x) (sym p) ∙ d)))
            ∙ h x)

-- membership
abbrev pub in_keys : Bytes → List Bytes → Bool
in_keys key keys = any (eq_bytes key) keys

abbrev pub has : Bytes → Members → Bool
has key ms = is_some (get key ms)

pub insert_key-in_keys :
    (x key : Bytes) (keys : List Bytes)
    → in_keys x (insert_key key keys) ≡ (eq_bytes x key || in_keys x keys)
unfolding insert_key
insert_key-in_keys x key [] = refl
insert_key-in_keys x key (k ∷ keys) = elim (eq_bytes_cases k key) [
  | inl (e, p) ↦ rw (e, ap (eq_bytes x) p) (ground arith)
  | inr (e, _) ↦ elim (Bool-cases (lt_bytes key k)) [
    | inl lt ↦ rw (e, lt) refl
    | inr ge ↦ rw (e, ge, insert_key-in_keys x key keys) (ground arith)
  ]
]

has_member :
    (x k : Bytes) (v : Json) (ms : Members) → has x (member k v ms) ≡ (eq_bytes x k || has x ms)
unfolding get
has_member x k v ms = elim (Bool-cases (eq_bytes x k)) [
  | inl e ↦ rw (eq_bytes_sym k x, e) refl
  | inr e ↦ rw (eq_bytes_sym k x, e) refl
]

pub insert_keys-in_keys :
    (x : Bytes) (ms : Members) (keys : List Bytes)
    → in_keys x (insert_keys ms keys) ≡ (has x ms || in_keys x keys)
unfolding insert_keys get
insert_keys-in_keys x no_members keys = refl
insert_keys-in_keys x (member k v ms) keys =
    rw
      (
        insert_keys-in_keys x ms (insert_key k keys),
        insert_key-in_keys x k keys,
        has_member x k v ms,
      )
      (ground arith)
