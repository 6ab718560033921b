-- ===== src/Config/Decorated.antt =====
-- What the documents of crates/redis-web-core/src/config.rs hold, key by key.
use redis_web.Prelude.{
  Bool, true, false, Option, none, some, List, [], ◌∷◌, ◌≡◌, refl, ap, sym, ◌∙◌, if◌then◌else◌,
  Bool-cases, inl, inr, ◌⊎◌, ◌≢◌, subst,
}
use redis_web.Text.{Bytes, codes, eq_bytes, eq_bytes_cases}
use redis_web.Http.Json.{Json, Members, string, no_members, member, get, insert}
use redis_web.Http.Json.Sorted.{
  IsAbove, IsSorted, IsAbove-IsSorted, IsAbove-weaken, get_IsAbove, insert-IsSorted, get-insert,
  differs,
}
use redis_web.Config.Documents.{
  is_null, retain_non_null, remove_member, insert_found, take_ordered, insert_all,
  decorate_config_map,
}

-- the first of two lookups that finds something
abbrev first_of : Option Json → Option Json → Option Json
first_of none o = o
first_of (some v) o = some v

abbrev non_null : Option Json → Option Json
non_null none = none
non_null (some v) = if is_null v then none else some v

retain_non_null-IsAbove : (b : Bytes) (m : Members) → IsAbove b m → IsAbove b (retain_non_null m)
unfolding retain_non_null
retain_non_null-IsAbove b no_members h = _
retain_non_null-IsAbove b (member k v ms) (l, h) = elim (Bool-cases (is_null v)) [
  | inl e ↦ rw (e) (retain_non_null-IsAbove b ms (IsAbove-weaken b k ms l h))
  | inr e ↦ rw (e) (l, retain_non_null-IsAbove k ms h)
]

retain_non_null-IsSorted : (m : Members) → IsSorted m → IsSorted (retain_non_null m)
unfolding retain_non_null
retain_non_null-IsSorted no_members h = _
retain_non_null-IsSorted (member k v ms) h = elim (Bool-cases (is_null v)) [
  | inl e ↦ rw (e) (retain_non_null-IsSorted ms (IsAbove-IsSorted k ms h))
  | inr e ↦ rw (e) (retain_non_null-IsAbove k ms h)
]

get-retain_non_null :
    (k : Bytes) (m : Members) → IsSorted m → get k (retain_non_null m) ≡ non_null (get k m)
unfolding get retain_non_null
get-retain_non_null k no_members h = refl
get-retain_non_null k (member j v ms) h = elim (eq_bytes_cases j k) [
  | inl (e, p) ↦ elim (Bool-cases (is_null v)) [
    | inl n ↦
        rw (n, e, n)
          (get_IsAbove k (retain_non_null ms)
            (retain_non_null-IsAbove k ms (subst (λ x. IsAbove x ms) p h)))
    | inr n ↦ rw (n, e, n) refl
  ]
  | inr (e, _) ↦ elim (Bool-cases (is_null v)) [
    | inl n ↦ rw (n, e) (get-retain_non_null k ms (IsAbove-IsSorted j ms h))
    | inr n ↦ rw (n, e) (get-retain_non_null k ms (IsAbove-IsSorted j ms h))
  ]
]

remove_member-IsAbove :
    (b key : Bytes) (m : Members) → IsAbove b m → IsAbove b (remove_member key m)
unfolding remove_member
remove_member-IsAbove b key no_members h = _
remove_member-IsAbove b key (member k v ms) (l, h) = elim (Bool-cases (eq_bytes k key)) [
  | inl e ↦ rw (e) (IsAbove-weaken b k ms l h)
  | inr e ↦ rw (e) (l, remove_member-IsAbove k key ms h)
]

remove_member-IsSorted : (key : Bytes) (m : Members) → IsSorted m → IsSorted (remove_member key m)
unfolding remove_member
remove_member-IsSorted key no_members h = _
remove_member-IsSorted key (member k v ms) h = elim (Bool-cases (eq_bytes k key)) [
  | inl e ↦ rw (e) (IsAbove-IsSorted k ms h)
  | inr e ↦ rw (e) (remove_member-IsAbove k key ms h)
]

get-remove_member :
    (k key : Bytes) (m : Members)
    → IsSorted m
    → get k (remove_member key m) ≡ (if eq_bytes key k then none else get k m)
unfolding get remove_member
get-remove_member k key no_members h = elim (Bool-cases (eq_bytes key k)) [
  | inl q ↦ rw (q) refl
  | inr q ↦ rw (q) refl
]
get-remove_member k key (member j v ms) h = elim (eq_bytes_cases j key) [
  | inl (e, p) ↦ elim (eq_bytes_cases key k) [
    | inl (q, r) ↦ rw (e, q) (get_IsAbove k ms (subst (λ x. IsAbove x ms) (p ∙ r) h))
    | inr (q, _) ↦ rw (e, q, ap (λ x. eq_bytes x k) p ∙ q) refl
  ]
  | inr (e, n) ↦ elim (eq_bytes_cases j k) [
    | inl (d, r) ↦ rw (e, d, differs (λ p. n (r ∙ sym p))) refl
    | inr (d, _) ↦ rw (e, d) (get-remove_member k key ms (IsAbove-IsSorted j ms h))
  ]
]

get-insert_found :
    (k key : Bytes) (o : Option Json) (m : Members)
    → get k (insert_found key o m) ≡ (if eq_bytes key k then first_of o (get k m) else get k m)
get-insert_found k key none m = elim (Bool-cases (eq_bytes key k)) [
  | inl q ↦ rw (q) refl
  | inr q ↦ rw (q) refl
]
get-insert_found k key (some v) m = get-insert k key v m

get-insert_all :
    (k : Bytes) (r o : Members) → IsSorted r → get k (insert_all r o) ≡ first_of (get k r) (get k o)
unfolding get insert_all
get-insert_all k no_members o h = refl
get-insert_all k (member j v ms) o h = elim (eq_bytes_cases j k) [
  | inl (e, p) ↦
      rw
        (
          get-insert_all k ms (insert j v o) (IsAbove-IsSorted j ms h),
          get-insert k j v o,
          e,
          get_IsAbove k ms (subst (λ x. IsAbove x ms) p h),
        )
        refl
  | inr (e, n) ↦
      rw (get-insert_all k ms (insert j v o) (IsAbove-IsSorted j ms h), get-insert k j v o, e) refl
]

-- Moving keys from one map to the other changes no lookup in the two together.
take_ordered_keeps :
    (k : Bytes) (keys : List Bytes) (r o r' o' : Members)
    → IsSorted r
    → take_ordered keys r o ≡ (r', o')
    → IsSorted r' × (first_of (get k r') (get k o') ≡ first_of (get k r) (get k o))
unfolding take_ordered
take_ordered_keeps k [] r o r' o' h e =
    (subst (λ q. IsSorted q.0) e h, sym (ap (λ q. first_of (get k q.0) (get k q.1)) e))
take_ordered_keeps k (key ∷ keys) r o r' o' h e =
    let (sorted, eq) =
      take_ordered_keeps k keys (remove_member key r) (insert_found key (get key r) o) r' o'
        (remove_member-IsSorted key r h) e in
    (sorted, eq ∙ moved (eq_bytes_cases key k))
  where
    moved :
        ((eq_bytes key k ≡ true) × (key ≡ k)) ⊎ ((eq_bytes key k ≡ false) × (key ≢ k))
        → first_of (get k (remove_member key r)) (get k (insert_found key (get key r) o))
          ≡ first_of (get k r) (get k o)
    moved (inl (q, p)) =
        rw (get-remove_member k key r h, get-insert_found k key (get key r) o, q, p) refl
    moved (inr (q, _)) =
        rw (get-remove_member k key r h, get-insert_found k key (get key r) o, q) refl

-- Whatever the order of the keys, a document has under `$schema` the reference, and under any other
-- key what the map has there, unless that is null.
pub get-decorate_config_map :
    (k : Bytes) (m : Members) (schema_ref : Bytes) (key_order : List Bytes)
    → IsSorted m
    → get k (decorate_config_map m schema_ref key_order)
      ≡ (if eq_bytes (codes "$schema") k then some (string schema_ref) else non_null (get k m))
unfolding decorate_config_map get
get-decorate_config_map k m schema_ref key_order h =
    let schema = codes "$schema" in
    let m' = insert schema (string schema_ref) m in
    let sorted = insert-IsSorted schema (string schema_ref) m h in
    let moved = take_ordered key_order (retain_non_null m') no_members in
    let (sorted', eq) =
      take_ordered_keeps k key_order (retain_non_null m') no_members moved.0 moved.1
        (retain_non_null-IsSorted m' sorted) refl in
    get-insert_all k moved.0 moved.1 sorted'
    ∙ (eq
        ∙ (first_of_none (get k (retain_non_null m'))
            ∙ (get-retain_non_null k m' sorted
                ∙ (ap non_null (get-insert k schema (string schema_ref) m)
                    ∙ non_null_if (eq_bytes schema k) (get k m)))))
  where
    first_of_none : (o : Option Json) → first_of o (get k no_members) ≡ o
    first_of_none none = refl
    first_of_none (some v) = refl

    non_null_if :
        (b : Bool) (o : Option Json)
        → non_null (if b then some (string schema_ref) else o)
          ≡ (if b then some (string schema_ref) else non_null o)
    non_null_if true o = refl
    non_null_if false o = refl
