-- ===== src/Acl.antt =====
-- crates/redis-web-core/src/acl.rs. Networks, addresses and the Base64 decoder are those of the
-- crates `ipnet`, `std::net` and `base64`: a type each, with the functions that the code calls.
pub mod Verdict
pub mod Matching
mod Tests
use redis_web.Prelude.{
  Bool, true, false, not, ◌||◌, Option, none, some, List, [], ◌∷◌, map, if◌then◌else◌, is_empty,
  unwrap_or,
}
use redis_web.Text.{Bytes, codes, eq_bytes, strip_prefix}
use redis_web.Text.Ascii.{eq_ignore_ascii_case}
use redis_web.Text.Utf8.{is_utf8}

-- `AclConfig` of config.rs
pub record AclConfig : Type 0 where
  pub disabled : Option (List Bytes)
  pub enabled : Option (List Bytes)
  pub http_basic_auth : Option Bytes
  pub ip : Option Bytes

pub record AclRule (Net : Type 0) : Type 0 where
  pub ip_subnet : Option Net
  pub basic_auth : Option Bytes
  pub enabled : List Bytes
  pub disabled : List Bytes

pub record Acl (Net : Type 0) : Type 0 where
  pub rules : List (AclRule Net)

-- `AuthContext` of interfaces.rs
pub record AuthContext (Ip : Type 0) : Type 0 where
  pub client_ip : Ip
  pub authorization : Option Bytes

module _ {Net : Type 0} (parse_net : Bytes → Option Net) where
  -- `c.ip.and_then(|ip| ip.parse().ok())`
  abbrev subnet_of : Option Bytes → Option Net
  subnet_of none = none
  subnet_of (some ip) = parse_net ip

  abbrev pub rule_of : AclConfig → AclRule Net
  rule_of c = record {
    ip_subnet = subnet_of c.ip;
    basic_auth = c.http_basic_auth;
    enabled = unwrap_or c.enabled [];
    disabled = unwrap_or c.disabled [];
  }

  abbrev pub new_acl : Option (List AclConfig) → Acl Net
  new_acl config = record { rules = map rule_of (unwrap_or config []) }

-- The loop over the commands of a rule: `allowed = value` at each that names `command`.
unfoldable pub set_if_named : Bool → Bytes → List Bytes → Bool → Bool
set_if_named value command [] allowed = allowed
set_if_named value command (c ∷ cs) allowed =
    set_if_named value command cs
      (if eq_bytes c (codes "*") || eq_ignore_ascii_case c command then value else allowed)

module _ {Ip Net : Type 0} (contains : Net → Ip → Bool) (base64_decode : Bytes → Option Bytes) where
  -- the check of the address
  abbrev ip_matches : Option Net → Ip → Bool
  ip_matches none ip = true
  ip_matches (some subnet) ip = contains subnet ip

  abbrev decoded_matches : Option Bytes → Bytes → Bool
  decoded_matches none required = false
  decoded_matches (some decoded) required =
      if is_utf8 decoded then eq_bytes decoded required else false

  abbrev stripped_matches : Option Bytes → Bytes → Bool
  stripped_matches none required = false
  stripped_matches (some stripped) required = decoded_matches (base64_decode stripped) required

  abbrev credentials_match : Option Bytes → Bytes → Bool
  credentials_match none required = false
  credentials_match (some auth_val) required =
      stripped_matches (strip_prefix (codes "Basic ") auth_val) required

  -- `matches`: where credentials are required, what the address gave is overwritten.
  unfoldable pub rule_matches : AclRule Net → Ip → Option Bytes → Bool
  rule_matches rule ip auth_header = elim rule.basic_auth [
    | none ↦ ip_matches rule.ip_subnet ip
    | some required ↦ credentials_match auth_header required
  ]

  -- one round of the loop over the rules
  unfoldable pub apply_rule : Ip → Bytes → Option Bytes → AclRule Net → Bool → Bool
  apply_rule ip command auth_header rule allowed =
      if rule_matches rule ip auth_header
      then set_if_named true command rule.enabled (set_if_named false command rule.disabled allowed)
      else allowed

  unfoldable pub check_rules : Ip → Bytes → Option Bytes → List (AclRule Net) → Bool → Bool
  check_rules ip command auth_header [] allowed = allowed
  check_rules ip command auth_header (rule ∷ rules) allowed =
      check_rules ip command auth_header rules (apply_rule ip command auth_header rule allowed)

  unfoldable pub check : Acl Net → Ip → Bytes → Option Bytes → Bool
  check acl ip command auth_header =
      if is_empty acl.rules then true else check_rules ip command auth_header acl.rules true

  unfoldable pub check_auth : Acl Net → AuthContext Ip → Bytes → Bool
  unfolding check
  check_auth acl auth command = check acl auth.client_ip command auth.authorization
