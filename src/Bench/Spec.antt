-- ===== src/Bench/Spec.antt =====
-- crates/redis-web-bench/src/spec.rs: a variant's configuration, merged over the base, and how it
-- differs from the baseline.
use redis_web.Prelude.{
  Bool, true, false, ◌&&◌, Option, none, some, List, [], ◌∷◌, ◌++◌, ◌==◌, if◌then◌else◌, is_empty,
}
use redis_web.Text.{Bytes, codes, eq_bytes}
use redis_web.Text.Decimal.{ℤ, pos, negsuc}
use redis_web.Http.Json.{
  Json, Jsons, Members, null, boolean, number, fraction, string, object, no_items, item, no_members,
  member, lt_bytes, get, insert,
}

-- the value under a key: `merge` of the base's value with the override, or the override
abbrev pub merged {ℓ} : {A : Type ℓ} → (A → A) → A → Option A → A
merged merge override none = override
merged merge override (some base) = merge base

unfoldable mutual
  pub merge_json : Json → Json → Json
  merge_json base null = base
  merge_json (object base_map) (object override_map) = object (merge_members base_map override_map)
  merge_json base value = value

  -- the loop over the members of an override
  pub merge_members : Members → Members → Members
  merge_members base_map no_members = base_map
  merge_members base_map (member key value overrides) =
      merge_members
        (insert key (merged (λ base. merge_json base value) value (get key base_map)) base_map)
        overrides

abbrev eq_int : ℤ → ℤ → Bool
eq_int (pos m) (pos n) = m == n
eq_int (negsuc m) (negsuc n) = m == n
eq_int _ _ = false

abbrev eq_bool : Bool → Bool → Bool
eq_bool true b = b
eq_bool false true = false
eq_bool false false = true

-- `==` on JSON values
unfoldable mutual
  pub eq_json : Json → Json → Bool
  eq_json null null = true
  eq_json (boolean a) (boolean b) = eq_bool a b
  eq_json (number m) (number n) = eq_int m n
  eq_json (fraction s) (fraction t) = eq_bytes s t
  eq_json (string s) (string t) = eq_bytes s t
  eq_json (Json.array vs) (Json.array ws) = eq_items vs ws
  eq_json (object ms) (object ns) = eq_members ms ns
  eq_json _ _ = false

  eq_items : Jsons → Jsons → Bool
  eq_items no_items no_items = true
  eq_items (item v vs) (item w ws) = eq_json v w && eq_items vs ws
  eq_items _ _ = false

  pub eq_members : Members → Members → Bool
  eq_members no_members no_members = true
  eq_members (member k v ms) (member j w ns) = eq_bytes k j && (eq_json v w && eq_members ms ns)
  eq_members _ _ = false

pub record ConfigDiff : Type 0 where
  pub key : Bytes
  pub before : Bytes
  pub after : Bytes

-- `BTreeSet::insert`, and the keys of two maps in order
unfoldable pub insert_key : Bytes → List Bytes → List Bytes
insert_key key [] = key ∷ []
insert_key key (k ∷ keys) =
    let later = k ∷ insert_key key keys in
    if eq_bytes k key then k ∷ keys else if lt_bytes key k then key ∷ k ∷ keys else later

unfoldable pub insert_keys : Members → List Bytes → List Bytes
insert_keys no_members keys = keys
insert_keys (member k v ms) keys = insert_keys ms (insert_key k keys)

-- `to_string` is `serde_json::to_string`, which may fail.
module _ (to_string : Json → Option Bytes) where
  abbrev printed : Option Bytes → Bytes
  printed none = codes "<unprintable>"
  printed (some s) = s

  unfoldable pub display_json_value : Json → Bytes
  display_json_value (string text) = text
  display_json_value value = printed (to_string value)

  abbrev pub unset : Bytes
  unset = codes "<unset>"

  abbrev pub next_path : Bytes → Bytes → Bytes
  next_path path key = if is_empty path then key else path ++ b'.' ∷ key

  -- What the loop needs of a member of the base: its value, and the entries of its difference from a
  -- variant's value.
  abbrev pub Entry : Type 0
  Entry = Json × (Bytes → Json → List ConfigDiff)

  unfoldable pub get_entry : Bytes → List (Bytes × Entry) → Option Entry
  get_entry key [] = none
  get_entry key ((k, e) ∷ es) = if eq_bytes k key then some e else get_entry key es

  abbrev pub key_diff : Bytes → Option Entry → Option Json → List ConfigDiff
  key_diff path (some (base, diff)) (some variant) = diff path variant
  key_diff path (some (base, diff)) none =
      record { key = path; before = display_json_value base; after = unset } ∷ []
  key_diff path none (some variant) =
      record { key = path; before = unset; after = display_json_value variant } ∷ []
  key_diff path none none = []

  unfoldable pub keys_diff : Bytes → List (Bytes × Entry) → Members → List Bytes → List ConfigDiff
  keys_diff path entries variant [] = []
  keys_diff path entries variant (key ∷ keys) =
      key_diff (next_path path key) (get_entry key entries) (get key variant)
      ++ keys_diff path entries variant keys

  abbrev pub leaf_diff : Bytes → Json → Json → List ConfigDiff
  leaf_diff path base variant =
      record { key = path; before = display_json_value base; after = display_json_value variant }
      ∷ []

  abbrev object_diff : Bytes → Members → List (Bytes × Entry) → Json → List ConfigDiff
  object_diff path base entries (object variant) =
      keys_diff path entries variant (insert_keys variant (insert_keys base []))
  object_diff path base entries variant = leaf_diff path (object base) variant

  unfoldable mutual
    pub collect_diff_entries : Json → Bytes → Json → List ConfigDiff
    collect_diff_entries (object base) path variant =
        if eq_json (object base) variant then [] else object_diff path base (entries base) variant
    collect_diff_entries base path variant =
        if eq_json base variant then [] else leaf_diff path base variant

    pub entries : Members → List (Bytes × Entry)
    entries no_members = []
    entries (member k v ms) = (k, (v, collect_diff_entries v)) ∷ entries ms

  unfoldable pub flatten_diff : Json → Json → List ConfigDiff
  flatten_diff base variant = collect_diff_entries base [] variant
