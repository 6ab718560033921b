-- ===== src/Acl/Matching.antt =====
-- To whom the rules of an access list apply.
use redis_web.Prelude.{
  Bool, true, false, Option, none, some, List, [], ◌∷◌, map, if◌then◌else◌, is_empty, ◌≡◌, ◌≢◌,
  refl, arith, ap, sym, ◌∙◌, All, ◌⊎◌,
}
use redis_web.Text.{Bytes, eq_bytes, eq_bytes_sound}
use redis_web.Text.Ascii.{eq_ignore_ascii_case, to_ascii_lowercase, eq_ignore_ascii_case-eq_bytes}
use redis_web.Acl.{
  Acl, AclConfig, AclRule, new_acl, rule_of, subnet_of, set_if_named, rule_matches, apply_rule,
  check_rules, check,
}

module _ {Ip Net : Type 0} (contains : Net → Ip → Bool) (base64_decode : Bytes → Option Bytes) where
  -- a rule that no address can fail
  abbrev IsAddressBlind : AclRule Net → Type 0
  IsAddressBlind rule = (rule.ip_subnet ≡ none) ⊎ (rule.basic_auth ≢ none)

  rule_matches-blind :
      (rule : AclRule Net) (ip1 ip2 : Ip) (auth : Option Bytes)
      → IsAddressBlind rule
      → rule_matches contains base64_decode rule ip1 auth
        ≡ rule_matches contains base64_decode rule ip2 auth
  unfolding rule_matches
  rule_matches-blind rule ip1 ip2 auth h = ground arith

  apply_rule-blind :
      (rule : AclRule Net) (ip1 ip2 : Ip) (command : Bytes) (auth : Option Bytes) (allowed : Bool)
      → IsAddressBlind rule
      → apply_rule contains base64_decode ip1 command auth rule allowed
        ≡ apply_rule contains base64_decode ip2 command auth rule allowed
  unfolding apply_rule
  apply_rule-blind rule ip1 ip2 command auth allowed h =
      ground (arith, rule_matches-blind rule ip1 ip2 auth h)

  module _ (ip1 ip2 : Ip) (command : Bytes) (auth : Option Bytes) where
    check_rules-blind :
        (rules : List (AclRule Net)) (allowed : Bool)
        → All IsAddressBlind rules
        → check_rules contains base64_decode ip1 command auth rules allowed
          ≡ check_rules contains base64_decode ip2 command auth rules allowed
    unfolding check_rules
    check_rules-blind [] allowed h = refl
    check_rules-blind (rule ∷ rules) allowed (hr, h) =
        rw (apply_rule-blind rule ip1 ip2 command auth allowed hr) (
          check_rules-blind rules (apply_rule contains base64_decode ip2 command auth rule allowed)
            h)

    check-blind :
        (acl : Acl Net)
        → All IsAddressBlind acl.rules
        → check contains base64_decode acl ip1 command auth
          ≡ check contains base64_decode acl ip2 command auth
    unfolding check
    check-blind acl h =
        ap (λ b. if is_empty acl.rules then true else b) (check_rules-blind acl.rules true h)

  module _ (parse_net : Bytes → Option Net) where
    -- an entry whose address is no network, or stands beside credentials
    abbrev HasLostAddress : AclConfig → Type 0
    HasLostAddress c = (subnet_of parse_net c.ip ≡ none) ⊎ (c.http_basic_auth ≢ none)

    rules-blind :
        (configs : List AclConfig)
        → All HasLostAddress configs
        → All IsAddressBlind (map (rule_of parse_net) configs)
    rules-blind [] h = tt
    rules-blind (c ∷ configs) (hc, h) = (hc, rules-blind configs h)

    -- If the address of each entry fails to parse as a network, or stands beside `http_basic_auth`,
    -- then the client's address has no influence: such a list treats all clients alike.
    check_ignores_address :
        (configs : List AclConfig) (ip1 ip2 : Ip) (command : Bytes) (auth : Option Bytes)
        → All HasLostAddress configs
        → check contains base64_decode (new_acl parse_net (some configs)) ip1 command auth
          ≡ check contains base64_decode (new_acl parse_net (some configs)) ip2 command auth
    check_ignores_address configs ip1 ip2 command auth h =
        check-blind ip1 ip2 command auth (new_acl parse_net (some configs)) (rules-blind configs h)

  -- rules that ask for no credentials
  abbrev anonymous : List (AclRule Net) → List (AclRule Net)
  anonymous [] = []
  anonymous (rule ∷ rules) = elim rule.basic_auth [
    | none ↦ rule ∷ anonymous rules
    | some _ ↦ anonymous rules
  ]

  module _ (ip : Ip) (command : Bytes) where
    check_rules-anonymous :
        (rules : List (AclRule Net)) (allowed : Bool)
        → check_rules contains base64_decode ip command none rules allowed
          ≡ check_rules contains base64_decode ip command none (anonymous rules) allowed
    unfolding check_rules apply_rule rule_matches
    check_rules-anonymous [] allowed = refl
    check_rules-anonymous (rule ∷ rules) allowed = ground (
      arith,
      check_rules-anonymous rules (apply_rule contains base64_decode ip command none rule allowed),
      check_rules-anonymous rules allowed,
    )

    -- A client that sends no credentials is judged by the rules that ask for none.
    check-anonymous :
        (acl : Acl Net)
        → check contains base64_decode acl ip command none
          ≡ check contains base64_decode (record { rules = anonymous acl.rules }) ip command none
    unfolding check
    check-anonymous acl =
        tested acl.rules ∙ check_rules-anonymous acl.rules true ∙ sym (tested (anonymous acl.rules))
      where
        tested :
            (rules : List (AclRule Net))
            → (if is_empty rules
                then true
                else check_rules contains base64_decode ip command none rules true)
              ≡ check_rules contains base64_decode ip command none rules true
        tested [] = unfold check_rules in refl
        tested (rule ∷ rules) = refl

  module _ (c d : Bytes) (same : eq_ignore_ascii_case c d ≡ true) where
    lower_same : to_ascii_lowercase c ≡ to_ascii_lowercase d
    lower_same = eq_bytes_sound _ _ (sym (eq_ignore_ascii_case-eq_bytes c d) ∙ same)

    eq_ignore_case_same : (e : Bytes) → eq_ignore_ascii_case e c ≡ eq_ignore_ascii_case e d
    eq_ignore_case_same e =
        eq_ignore_ascii_case-eq_bytes e c
        ∙ ap (eq_bytes (to_ascii_lowercase e)) lower_same
        ∙ sym (eq_ignore_ascii_case-eq_bytes e d)

    set_if_named_same :
        (value : Bool) (cs : List Bytes) (allowed : Bool)
        → set_if_named value c cs allowed ≡ set_if_named value d cs allowed
    unfolding set_if_named
    set_if_named_same value [] allowed = refl
    set_if_named_same value (e ∷ cs) allowed =
        rw (eq_ignore_case_same e) (set_if_named_same value cs _)

    check_rules_same :
        (ip : Ip) (auth : Option Bytes) (rules : List (AclRule Net)) (allowed : Bool)
        → check_rules contains base64_decode ip c auth rules allowed
          ≡ check_rules contains base64_decode ip d auth rules allowed
    unfolding check_rules apply_rule
    check_rules_same ip auth [] allowed = refl
    check_rules_same ip auth (rule ∷ rules) allowed =
        rw
          (
            set_if_named_same false rule.disabled allowed,
            set_if_named_same true rule.enabled (set_if_named false d rule.disabled allowed),
          )
          (check_rules_same ip auth rules _)

    -- The case of a command's letters has no influence on the decision.
    check_ignores_case :
        (acl : Acl Net) (ip : Ip) (auth : Option Bytes)
        → check contains base64_decode acl ip c auth ≡ check contains base64_decode acl ip d auth
    unfolding check
    check_ignores_case acl ip auth =
        ap (λ b. if is_empty acl.rules then true else b) (check_rules_same ip auth acl.rules true)
