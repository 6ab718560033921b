-- ===== src/Bench/Differences.antt =====
-- The differences that crates/redis-web-bench/src/spec.rs lists are complete: an empty list means that
-- the two configurations are equal.
use redis_web.Prelude.{
  Bool, true, false, ◌||◌, Option, none, some, List, [], ◌∷◌, ◌++◌, ◌≡◌, refl, ap, sym, ◌∙◌,
  if◌then◌else◌, subst, Bool-cases, inl, inr, unwrap_or,
}
use redis_web.Text.{Bytes, eq_bytes, eq_bytes_cases}
use redis_web.Http.Json.{
  Json, Members, null, boolean, number, fraction, string, object, no_members, member, get,
}
use redis_web.Http.Json.Sorted.{IsSorted}
use redis_web.Bench.Spec.{
  eq_json, eq_members, insert_keys, Entry, get_entry, key_diff, keys_diff, next_path, leaf_diff,
  collect_diff_entries, entries, flatten_diff,
}
use redis_web.Bench.Keys.{
  same_value, eq_members-same_value, in_keys, has, is_some, insert_keys-in_keys,
}

unfoldable mutual
  -- the keys are in order in the value and in the objects that are its members
  pub IsOrdered : Json → Type 0
  IsOrdered (object ms) = IsSorted ms × AreOrdered ms
  IsOrdered null = Unit
  IsOrdered (boolean b) = Unit
  IsOrdered (number n) = Unit
  IsOrdered (fraction t) = Unit
  IsOrdered (string s) = Unit
  IsOrdered (Json.array vs) = Unit

  AreOrdered : Members → Type 0
  AreOrdered no_members = Unit
  AreOrdered (member k v ms) = IsOrdered v × AreOrdered ms

some-inj : (a b : Json) → some a ≡ some b → a ≡ b
some-inj a b h = ap (λ o. unwrap_or o a) h

get-IsOrdered :
    (x : Bytes) (v : Json) (ms : Members) → AreOrdered ms → get x ms ≡ some v → IsOrdered v
unfolding get IsOrdered
get-IsOrdered x v no_members h e = cc e
get-IsOrdered x v (member k w ms) (hw, hms) e = elim (Bool-cases (eq_bytes k x)) [
  | inl t ↦ subst IsOrdered (some-inj w v (sym (rw (t) refl) ∙ e)) hw
  | inr f ↦ get-IsOrdered x v ms hms (sym (rw (f) refl) ∙ e)
]

append-nil_inv : {A : Type 0} (xs ys : List A) → xs ++ ys ≡ [] → (xs ≡ []) × (ys ≡ [])
append-nil_inv [] ys h = (refl, h)
append-nil_inv (x ∷ xs) ys h = cc h

module _ (to_string : Json → Option Bytes) where
  keys_diff_nil :
      (path : Bytes) (es : List (Bytes × Entry to_string)) (variant : Members) (keys : List Bytes)
      → keys_diff to_string path es variant keys ≡ []
      → (x : Bytes) → in_keys x keys ≡ true
      → key_diff to_string (next_path to_string path x) (get_entry to_string x es) (get x variant)
        ≡ []
  unfolding keys_diff
  keys_diff_nil path es variant [] h x k = cc k
  keys_diff_nil path es variant (key ∷ keys) h x k =
      let (first, others) = append-nil_inv _ _ h in
      elim (eq_bytes_cases x key) [
        | inl (_, p) ↦
            ap
              (λ y.
                key_diff to_string (next_path to_string path y) (get_entry to_string y es)
                  (get y variant))
              p
            ∙ first
        | inr (n, _) ↦
            keys_diff_nil path es variant keys others x (sym (ap (λ b. b || in_keys x keys) n) ∙ k)
      ]

  abbrev entry_of : Option Json → Option (Entry to_string)
  entry_of none = none
  entry_of (some v) = some (v, collect_diff_entries to_string v)

  get_entry-entries :
      (x : Bytes) (ms : Members)
      → get_entry to_string x (entries to_string ms) ≡ entry_of (get x ms)
  unfolding get_entry collect_diff_entries get
  get_entry-entries x no_members = refl
  get_entry-entries x (member k v ms) = elim (Bool-cases (eq_bytes k x)) [
    | inl t ↦ rw (t) refl
    | inr f ↦ rw (f) (get_entry-entries x ms)
  ]

  leaf_equal :
      (b : Bool) (path : Bytes) (base variant : Json)
      → (if b then [] else leaf_diff to_string path base variant) ≡ []
      → b ≡ true
  leaf_equal true path base variant h = refl
  leaf_equal false path base variant h = cc h

  -- what is known of each member of a base
  abbrev Sound : Json → Type 0
  Sound v =
      (path : Bytes) (variant : Json)
      → IsOrdered variant
      → collect_diff_entries to_string v path variant ≡ []
      → eq_json v variant ≡ true

  members_equal :
      (path : Bytes) (ms ns : Members)
      → IsSorted ms × AreOrdered ms
      → IsSorted ns × AreOrdered ns
      → ((x : Bytes) (v : Json) → get x ms ≡ some v → Sound v)
      → keys_diff to_string path (entries to_string ms) ns (insert_keys ns (insert_keys ms [])) ≡ []
      → eq_members ms ns ≡ true
  members_equal path ms ns (sm, om) (sn, on) sound h =
      eq_members-same_value ms ns sm sn (λ x. agree x (get x ms) (get x ns) refl refl)
    where
      at :
          (x : Bytes) (o p : Option Json)
          → get x ms ≡ o
          → get x ns ≡ p
          → (is_some p || (is_some o || false)) ≡ true
          → key_diff to_string (next_path to_string path x) (entry_of o) p ≡ []
      at x o p e d k =
          sym (
            ap (λ q. key_diff to_string (next_path to_string path x) q p)
              (get_entry-entries x ms ∙ ap entry_of e))
          ∙ (sym (
                ap
                  (key_diff to_string (next_path to_string path x)
                    (get_entry to_string x (entries to_string ms)))
                  d)
              ∙ keys_diff_nil path (entries to_string ms) ns (insert_keys ns (insert_keys ms [])) h
                  x
                  (insert_keys-in_keys x ns (insert_keys ms [])
                    ∙ (ap (λ b. has x ns || b) (insert_keys-in_keys x ms [])
                        ∙ ((λ i. is_some (d i) || (is_some (e i) || false)) ∙ k))))

      agree :
          (x : Bytes) (o p : Option Json)
          → get x ms ≡ o
          → get x ns ≡ p
          → same_value (get x ms) (get x ns) ≡ true
      agree x none none e d = rw (e, d) refl
      agree x (some v) none e d = cc (at x (some v) none e d refl)
      agree x none (some w) e d = cc (at x none (some w) e d refl)
      agree x (some v) (some w) e d =
          rw (e, d)
            (sound x v e (next_path to_string path x) w (get-IsOrdered x w ns on d)
              (at x (some v) (some w) e d refl))

  mutual
    unfolding collect_diff_entries IsOrdered eq_json get

    diff-Sound : (base : Json) → IsOrdered base → Sound base
    diff-Sound null h path variant k d = leaf_equal _ path null variant d
    diff-Sound (boolean b) h path variant k d = leaf_equal _ path (boolean b) variant d
    diff-Sound (number n) h path variant k d = leaf_equal _ path (number n) variant d
    diff-Sound (fraction t) h path variant k d = leaf_equal _ path (fraction t) variant d
    diff-Sound (string s) h path variant k d = leaf_equal _ path (string s) variant d
    diff-Sound (Json.array vs) h path variant k d = leaf_equal _ path (Json.array vs) variant d
    diff-Sound (object ms) h path null k d = cc d
    diff-Sound (object ms) h path (boolean b) k d = cc d
    diff-Sound (object ms) h path (number n) k d = cc d
    diff-Sound (object ms) h path (fraction t) k d = cc d
    diff-Sound (object ms) h path (string s) k d = cc d
    diff-Sound (object ms) h path (Json.array vs) k d = cc d
    diff-Sound (object ms) h path (object ns) k d = elim (Bool-cases (eq_members ms ns)) [
      | inl t ↦ t
      | inr f ↦
          members_equal path ms ns h k (λ x v e. member-Sound ms x v h.1 e) (sym (rw (f) refl) ∙ d)
    ]

    member-Sound :
        (ms : Members) (x : Bytes) (v : Json) → AreOrdered ms → get x ms ≡ some v → Sound v
    member-Sound no_members x v h e = cc e
    member-Sound (member k w ms) x v (hw, hms) e = elim (Bool-cases (eq_bytes k x)) [
      | inl t ↦ subst Sound (some-inj w v (sym (rw (t) refl) ∙ e)) (diff-Sound w hw)
      | inr f ↦ member-Sound ms x v hms (sym (rw (f) refl) ∙ e)
    ]

  -- If no difference of a variant's configuration from the baseline is listed, the two are equal. The
  -- keys have to be in order in the objects and in those in them, as the library keeps them.
  pub flatten_diff_complete :
      (base variant : Json)
      → IsOrdered base
      → IsOrdered variant
      → flatten_diff to_string base variant ≡ []
      → eq_json base variant ≡ true
  unfolding flatten_diff
  flatten_diff_complete base variant h k d = diff-Sound base h [] variant k d
