-- ===== src/Compat/Prefix.antt =====
-- The prefix of the paths under which the sessions are served.
use redis_web.Prelude.{
  Bool, false, ◌&&◌, [], ◌∷◌, ◌==◌, ◌≡◌, refl, arith, Bool-cases, inl, inr, is_empty, if◌then◌else◌,
}
use redis_web.Text.{Bytes, codes}
use redis_web.Text.Trim.{trim}
use redis_web.Compat.Handlers.{trim_end_slashes, normalize_prefix, pop_slashes, with_slash}

abbrev ends_with_slash : Bytes → Bool
ends_with_slash [] = false
ends_with_slash (c ∷ []) = c == b'/'
ends_with_slash (c ∷ d ∷ s) = ends_with_slash (d ∷ s)

trim_end_slashes-ends_with_slash : (s : Bytes) → ends_with_slash (trim_end_slashes s) ≡ false
unfolding trim_end_slashes
trim_end_slashes-ends_with_slash [] = refl
trim_end_slashes-ends_with_slash (c ∷ s) =
    go (trim_end_slashes s) (trim_end_slashes-ends_with_slash s)
  where
    go :
        (rest : Bytes)
        → ends_with_slash rest ≡ false
        → ends_with_slash (if is_empty rest && (c == b'/') then [] else c ∷ rest) ≡ false
    go [] h = ground arith
    go (d ∷ rest) h = h

-- A prefix is normalized to a slash and a text that does not end in one, so that the fallback for an
-- empty prefix is never taken.
normalize_prefix_shape :
    (prefix : Bytes)
    → (t : Bytes) × (normalize_prefix prefix ≡ b'/' ∷ t) × (ends_with_slash t ≡ false)
unfolding normalize_prefix
normalize_prefix_shape prefix = go (trim prefix)
  where
    go :
        (s : Bytes)
        → (t : Bytes) × ((let v = pop_slashes (with_slash s) in
              if is_empty v then codes "/__compat" else v)
            ≡ b'/' ∷ t)
          × (ends_with_slash t ≡ false)
    go [] = (trim_end_slashes [], refl, trim_end_slashes-ends_with_slash [])
    go (c ∷ s) = elim (Bool-cases (c == b'/')) [
      | inl e ↦ (trim_end_slashes s, ground (arith, e), trim_end_slashes-ends_with_slash s)
      | inr e ↦ (trim_end_slashes (c ∷ s), rw e, trim_end_slashes-ends_with_slash (c ∷ s))
    ]
