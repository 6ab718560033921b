-- ===== src/Config/Aliases.antt =====
-- What a configuration that was loaded satisfies: the older names of two settings are gone.
use redis_web.Prelude.{
  Option, none, some, ◌≡◌, refl, ap, Result, ok, err, ◌>>=◌, inl, inr, sym, ◌∙◌, false,
}
use redis_web.Text.{Bytes}
use redis_web.Http.Json.{Json}
use redis_web.Config.Env.{root}
use redis_web.Config.Expansion.{substitute, has_unset, expand_env_vars_in_json_lem}
use redis_web.Config.Settings.{Config, apply_legacy_aliases, take_legacy, from_json_value}

-- the newer name's value, else the older's
abbrev pub either {ℓ} : {A : Type ℓ} → Option A → Option A → Option A
either (some a) _ = some a
either none b = b

take_legacy-either {ℓ} :
    {A : Type ℓ} (new old : Option A) → take_legacy new old ≡ (either new old, none)
take_legacy-either none none = refl
take_legacy-either none (some b) = refl
take_legacy-either (some a) none = refl
take_legacy-either (some a) (some b) = refl

abbrev ok_value : Config → Result Bytes Config → Config
ok_value c (ok d) = d
ok_value c (err m) = c

ok-inj : (c d : Config) (r : Result Bytes Config) → r ≡ ok d → r ≡ ok c → c ≡ d
ok-inj c d r h k = ap (ok_value c) (sym k ∙ h)

-- what was read, with the two settings that have an older name settled and all else as it was
abbrev pub resolved : Config → Config
resolved read = record read {
  http_threads = either read.http_threads read.legacy_http_threads;
  pool_size_per_thread = either read.pool_size_per_thread read.legacy_pool_size_per_thread;
  legacy_http_threads = none;
  legacy_pool_size_per_thread = none;
}

apply_legacy_aliases-resolved : (c : Config) → apply_legacy_aliases c ≡ resolved c
unfolding apply_legacy_aliases
apply_legacy_aliases-resolved c =
    rw
      (
        take_legacy-either c.http_threads c.legacy_http_threads,
        take_legacy-either c.pool_size_per_thread c.legacy_pool_size_per_thread,
      )
      refl

module _ (env : Bytes → Option Bytes) (deserialize : Json → Result Bytes Config) where
  loaded :
      (r : Result Bytes Config) (json : Json) (c : Config)
      → deserialize (substitute env json) ≡ r
      → has_unset env json ≡ false
      → (r >>= λ config. ok (apply_legacy_aliases config)) ≡ ok c
      → (read : Config) × ((has_unset env json ≡ false)
          × ((deserialize (substitute env json) ≡ ok read) × (c ≡ resolved read)))
  loaded (ok read) json c e u h =
      (read, (u, (e, ok-inj _ _ _ refl h ∙ apply_legacy_aliases-resolved read)))
  loaded (err m) json c e u h = cc

  -- A configuration that was loaded is what the loader reads from the JSON value with every
  -- reference to the environment replaced, none of them unset, and in it the two settings that have
  -- an older name have the value of the newer name, else that of the older, which is cleared. All
  -- other settings are as they were read.
  pub from_json_value_resolves :
      (json : Json) (c : Config)
      → from_json_value env deserialize json ≡ ok c
      → (read : Config) × ((has_unset env json ≡ false)
          × ((deserialize (substitute env json) ≡ ok read) × (c ≡ resolved read)))
  unfolding from_json_value
  from_json_value_resolves json c h = elim (expand_env_vars_in_json_lem env root json) [
    | inl (u, e) ↦
        loaded (deserialize (substitute env json)) json c refl u
          (sym (ap (λ r. r >>= λ x. deserialize x >>= λ y. ok (apply_legacy_aliases y)) e) ∙ h)
    | inr (u, (m, e)) ↦
        cc (h, ap (λ r. r >>= λ x. deserialize x >>= λ y. ok (apply_legacy_aliases y)) e)
  ]
