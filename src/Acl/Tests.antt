-- ===== src/Acl/Tests.antt =====
-- Runs of the access list, over addresses that are numbers and networks that are bounds.
use redis_web.Prelude.{
  ℕ, Bool, true, Option, none, some, List, [], ◌∷◌, ltb, ◌≡◌, refl, unwrap_or, if◌then◌else◌,
}
use redis_web.Text.{Bytes, codes, eq_bytes}
use redis_web.Text.Ascii.{eq_ignore_ascii_case}
use redis_web.Acl.{AclConfig, Acl, new_acl, check}
use redis_web.Acl.Verdict.{check-verdict, verdict}

abbrev below : ℕ → ℕ → Bool
below net ip = ltb ip net

-- a Base64 decoder that knows one text
abbrev decode : Bytes → Option Bytes
decode s = some (codes "user:password")

-- only `0` is the text of a network
abbrev network : Bytes → Option ℕ
network s = if eq_bytes s (codes "0") then some 100 else none

abbrev entry : Option Bytes → Option Bytes → List Bytes → AclConfig
entry credentials ip forbidden = record {
  disabled = some forbidden;
  enabled = none;
  http_basic_auth = credentials;
  ip = ip;
}

-- `DEL` is for clients with credentials only, and an address without a mask is no network.
abbrev configs : List AclConfig
configs =
    entry none none (codes "DEL" ∷ [])
    ∷ entry none (some (codes "10.0.0.1")) (codes "SET" ∷ [])
    ∷ []

abbrev acl : Acl ℕ
acl = new_acl network (some configs)

check-verdict_example :
    check below decode acl 5 (codes "DEL") none
    ≡ unwrap_or (verdict below decode 5 (codes "DEL") none acl.rules) true
check-verdict_example = check-verdict below decode 5 (codes "DEL") none acl

same_letters : eq_ignore_ascii_case (codes "DEL") (codes "del") ≡ true
unfolding eq_ignore_ascii_case
same_letters = refl
