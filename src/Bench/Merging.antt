-- ===== src/Bench/Merging.antt =====
-- What the merge of crates/redis-web-bench/src/spec.rs gives, key by key, and when it changes nothing.
use redis_web.Prelude.{Option, none, some, ◌≡◌, refl, ap, ◌∙◌, subst, inl, inr}
use redis_web.Text.{Bytes, eq_bytes_cases}
use redis_web.Http.Json.{Json, Members, no_members, member, get, insert}
use redis_web.Http.Json.Sorted.{
  IsAbove, IsSorted, IsAbove-IsSorted, get_IsAbove, insert-IsSorted, get-insert,
}
use redis_web.Bench.Spec.{merge_json, merge_members, merged}

-- the value of a key after the merge
abbrev pub combined : Option Json → Option Json → Option Json
combined base none = base
combined base (some override) = some (merged (λ b. merge_json b override) override base)

-- the base after one member of the override
abbrev with_member : Members → Bytes → Json → Members
with_member base k v = insert k (merged (λ b. merge_json b v) v (get k base)) base

-- In the merged object a key that the override does not name has the base's value; one that it names
-- has the base's value merged with the override's, and the override's value if the base has none.
pub get-merge_members :
    (key : Bytes) (overrides base : Members)
    → IsSorted overrides
    → get key (merge_members base overrides) ≡ combined (get key base) (get key overrides)
unfolding merge_json get
get-merge_members key no_members base h = refl
get-merge_members key (member k v ms) base h =
    get-merge_members key ms (with_member base k v) (IsAbove-IsSorted k ms h)
    ∙ elim (eq_bytes_cases k key) [
      | inl (e, p) ↦
          rw
            (
              get-insert key k (merged (λ b. merge_json b v) v (get k base)) base,
              e,
              get_IsAbove key ms (subst (λ x. IsAbove x ms) p h),
            )
            (ap (λ x. some (merged (λ b. merge_json b v) v (get x base))) p)
      | inr (e, _) ↦
          rw (get-insert key k (merged (λ b. merge_json b v) v (get k base)) base, e) refl
    ]

-- The merge keeps the order of the keys.
merge_members-IsSorted :
    (overrides base : Members) → IsSorted base → IsSorted (merge_members base overrides)
unfolding merge_json
merge_members-IsSorted no_members base h = h
merge_members-IsSorted (member k v ms) base h =
    merge_members-IsSorted ms (with_member base k v) (insert-IsSorted k _ base h)
