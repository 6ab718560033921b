-- ===== src/Http/Json.antt =====
-- `serde_json::Value`. Its map is a `BTreeMap`: the members are kept in the order of their keys. A
-- number with a fraction is kept as its text, since the crates only pass it on.
pub mod Sorted
use redis_web.Prelude.{
  Bool, true, false, ◌||◌, ◌&&◌, Option, none, some, [], ◌∷◌, ltb, ◌==◌, if◌then◌else◌,
}
use redis_web.Text.{Bytes, eq_bytes}
use redis_web.Text.Decimal.{ℤ}

mutual
  pub data Json : Type 0 where
    null : Json
    boolean : Bool → Json
    number : ℤ → Json
    fraction : Bytes → Json
    string : Bytes → Json
    array : Jsons → Json
    object : Members → Json

  pub data Jsons : Type 0 where
    no_items : Jsons
    item : Json → Jsons → Jsons

  pub data Members : Type 0 where
    no_members : Members
    member : Bytes → Json → Members → Members

-- the order of `String`: bytes, from the left
unfoldable pub lt_bytes : Bytes → Bytes → Bool
lt_bytes s [] = false
lt_bytes [] (b ∷ t) = true
lt_bytes (a ∷ s) (b ∷ t) = ltb a b || ((a == b) && lt_bytes s t)

-- `map.get(key)`
unfoldable pub get : Bytes → Members → Option Json
get key no_members = none
get key (member k v ms) = if eq_bytes k key then some v else get key ms

-- `map.insert(key, value)`
unfoldable pub insert : Bytes → Json → Members → Members
unfolding lt_bytes
insert key value no_members = member key value no_members
insert key value (member k v ms) =
    let later = member k v (insert key value ms) in
    if eq_bytes k key
    then member key value ms
    else if lt_bytes key k
    then member key value (member k v ms)
    else later
