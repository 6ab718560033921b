-- ===== src/Config/Expansion.antt =====
-- What the expansion of the environment gives: each reference is replaced by its value, and one that
-- has none is an error.
use redis_web.Prelude.{
  ℕ, suc, Bool, true, false, ◌||◌, Option, none, some, ◌≡◌, refl, ap, Result, ok, err, ◌>>=◌, ◌⊎◌,
  inl, inr, Option-cases,
}
use redis_web.Text.{Bytes}
use redis_web.Http.Json.{
  Json, Jsons, Members, boolean, number, fraction, string, object, null, no_items, item, no_members,
  member,
}
use redis_web.Config.Env.{
  push_key, push_index, env_name, missing_message, expand_string, expand_env_vars_in_json,
  expand_items, expand_members,
}

module _ (env : Bytes → Option Bytes) where
  abbrev value_in : Bytes → Option Bytes → Bytes
  value_in s none = s
  value_in s (some found) = found

  -- the text that stands for a string
  abbrev value_of : Bytes → Option Bytes → Bytes
  value_of s none = s
  value_of s (some name) = value_in s (env name)

  abbrev is_unset : Option Bytes → Bool
  is_unset none = true
  is_unset (some found) = false

  abbrev refers_to_unset : Option Bytes → Bool
  refers_to_unset none = false
  refers_to_unset (some name) = is_unset (env name)

  unfoldable mutual
    -- every reference replaced by its value, wherever it stands
    pub substitute : Json → Json
    substitute (string s) = string (value_of s (env_name s))
    substitute (Json.array vs) = Json.array (substitute_items vs)
    substitute (object ms) = object (substitute_members ms)
    substitute null = null
    substitute (boolean b) = boolean b
    substitute (number n) = number n
    substitute (fraction t) = fraction t

    substitute_items : Jsons → Jsons
    substitute_items no_items = no_items
    substitute_items (item v vs) = item (substitute v) (substitute_items vs)

    substitute_members : Members → Members
    substitute_members no_members = no_members
    substitute_members (member key v ms) = member key (substitute v) (substitute_members ms)

  unfoldable mutual
    -- is there a reference without a value?
    pub has_unset : Json → Bool
    has_unset (string s) = refers_to_unset (env_name s)
    has_unset (Json.array vs) = items_have_unset vs
    has_unset (object ms) = members_have_unset ms
    has_unset null = false
    has_unset (boolean b) = false
    has_unset (number n) = false
    has_unset (fraction t) = false

    items_have_unset : Jsons → Bool
    items_have_unset no_items = false
    items_have_unset (item v vs) = has_unset v || items_have_unset vs

    members_have_unset : Members → Bool
    members_have_unset no_members = false
    members_have_unset (member key v ms) = has_unset v || members_have_unset ms

  -- a value, where nothing is unset, or an error, where something is
  abbrev Expands {ℓ} : {A : Type ℓ} → Result Bytes A → Bool → A → Type ℓ
  Expands r unset v =
      ((unset ≡ false) × (r ≡ ok v)) ⊎ ((unset ≡ true) × ((e : Bytes) × (r ≡ err e)))

  then-Expands {ℓ κ} :
      {A : Type ℓ} {B : Type κ} (r : Result Bytes A) (unset : Bool) (a : A) (f : A → B)
      → Expands r unset a
      → Expands (r >>= λ x. ok (f x)) unset (f a)
  then-Expands r unset a f (inl (h, e)) = inl (h, ap (λ q. q >>= λ x. ok (f x)) e)
  then-Expands r unset a f (inr (h, (m, e))) = inr (h, (m, ap (λ q. q >>= λ x. ok (f x)) e))

  both-Expands {ℓ κ μ} :
      {A : Type ℓ} {B : Type κ} {C : Type μ} (r : Result Bytes A) (q : Result Bytes B) (u w : Bool)
      (a : A) (b : B) (f : A → B → C)
      → Expands r u a
      → Expands q w b
      → Expands (r >>= λ x. q >>= λ y. ok (f x y)) (u || w) (f a b)
  both-Expands r q u w a b f (inl (h, e)) (inl (k, d)) = inl (rw (h, k), rw (e, d))
  both-Expands r q u w a b f (inl (h, e)) (inr (k, (m, d))) = inr (rw (h, k), (m, rw (e, d)))
  both-Expands r q u w a b f (inr (h, (m, e))) _ = inr (rw h, (m, rw e))

  string-Expands :
      (path s : Bytes) (o : Option Bytes)
      → Expands (expand_string env path s o) (refers_to_unset o) (string (value_of s o))
  string-Expands path s none = inl (refl, refl)
  string-Expands path s (some name) = elim (Option-cases (env name)) [
    | inl e ↦ inr (rw e, (missing_message name path, rw e))
    | inr (found, e) ↦ inl (rw e, rw e)
  ]

  mutual
    unfolding expand_env_vars_in_json substitute has_unset

    expand_env_vars_in_json-Expands :
        (path : Bytes) (v : Json)
        → Expands (expand_env_vars_in_json env path v) (has_unset v) (substitute v)
    expand_env_vars_in_json-Expands path (string s) = string-Expands path s (env_name s)
    expand_env_vars_in_json-Expands path (Json.array vs) =
        then-Expands _ _ _ Json.array (expand_items-Expands path 0 vs)
    expand_env_vars_in_json-Expands path (object ms) =
        then-Expands _ _ _ object (expand_members-Expands path ms)
    expand_env_vars_in_json-Expands path null = inl (refl, refl)
    expand_env_vars_in_json-Expands path (boolean b) = inl (refl, refl)
    expand_env_vars_in_json-Expands path (number n) = inl (refl, refl)
    expand_env_vars_in_json-Expands path (fraction t) = inl (refl, refl)

    expand_items-Expands :
        (path : Bytes) (idx : ℕ) (vs : Jsons)
        → Expands (expand_items env path idx vs) (items_have_unset vs) (substitute_items vs)
    expand_items-Expands path idx no_items = inl (refl, refl)
    expand_items-Expands path idx (item v vs) =
        both-Expands _ _ _ _ _ _ item (expand_env_vars_in_json-Expands (push_index path idx) v)
          (expand_items-Expands path (suc idx) vs)

    expand_members-Expands :
        (path : Bytes) (ms : Members)
        → Expands (expand_members env path ms) (members_have_unset ms) (substitute_members ms)
    expand_members-Expands path no_members = inl (refl, refl)
    expand_members-Expands path (member key v ms) =
        both-Expands _ _ _ _ _ _ (member key)
          (expand_env_vars_in_json-Expands (push_key path key) v) (expand_members-Expands path ms)

  -- The expansion replaces each reference to a variable by its value, at any depth, and changes
  -- nothing else, if all the variables are set. It is an error if one of them is not.
  pub expand_env_vars_in_json_lem :
      (path : Bytes) (v : Json)
      → ((has_unset v ≡ false) × (expand_env_vars_in_json env path v ≡ ok (substitute v)))
        ⊎ ((has_unset v ≡ true) × ((e : Bytes) × (expand_env_vars_in_json env path v ≡ err e)))
  expand_env_vars_in_json_lem path v = expand_env_vars_in_json-Expands path v
