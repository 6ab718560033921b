-- ===== src/Acl/Verdict.antt =====
-- The decision of an access list: the last rule that applies and names the command.
use redis_web.Prelude.{
  Bool, true, false, ◌||◌, Option, none, some, List, [], ◌∷◌, if◌then◌else◌, is_empty, unwrap_or,
  any, ◌≡◌, refl, arith, ap, ◌∙◌,
}
use redis_web.Text.{Bytes, codes, eq_bytes}
use redis_web.Text.Ascii.{eq_ignore_ascii_case}
use redis_web.Acl.{Acl, AclRule, set_if_named, rule_matches, apply_rule, check_rules, check}

-- Is the command, or every command, in a list?
abbrev pub names : List Bytes → Bytes → Bool
names cs command = any (λ c. eq_bytes c (codes "*") || eq_ignore_ascii_case c command) cs

set_if_named-names :
    (value : Bool) (command : Bytes) (cs : List Bytes) (allowed : Bool)
    → set_if_named value command cs allowed ≡ (if names cs command then value else allowed)
unfolding set_if_named
set_if_named-names value command [] allowed = refl
set_if_named-names value command (c ∷ cs) allowed =
    let hit = eq_bytes c (codes "*") || eq_ignore_ascii_case c command in
    ground (arith, set_if_named-names value command cs (if hit then value else allowed))

module _ {Ip Net : Type 0} (contains : Net → Ip → Bool) (base64_decode : Bytes → Option Bytes) where
  module _ (ip : Ip) (command : Bytes) (auth : Option Bytes) where
    -- What one rule says: nothing, if it does not apply or does not name the command; being enabled
    -- goes before being disabled.
    abbrev rule_verdict : AclRule Net → Option Bool
    rule_verdict rule =
        if rule_matches contains base64_decode rule ip auth
        then (if names rule.enabled command
            then some true
            else if names rule.disabled command
            then some false
            else none)
        else none

    abbrev pub later : Option Bool → Option Bool → Option Bool
    later (some b) earlier = some b
    later none earlier = earlier

    -- What the last rule says that says something.
    abbrev pub verdict : List (AclRule Net) → Option Bool
    verdict [] = none
    verdict (rule ∷ rules) = later (verdict rules) (rule_verdict rule)

    apply_rule-verdict :
        (rule : AclRule Net) (allowed : Bool)
        → apply_rule contains base64_decode ip command auth rule allowed
          ≡ unwrap_or (rule_verdict rule) allowed
    unfolding apply_rule
    apply_rule-verdict rule allowed = ground (
      arith,
      set_if_named-names false command rule.disabled allowed,
      set_if_named-names true command rule.enabled
          (set_if_named false command rule.disabled allowed),
    )

    later-unwrap_or :
        (l e : Option Bool) (d : Bool) → unwrap_or l (unwrap_or e d) ≡ unwrap_or (later l e) d
    later-unwrap_or (some b) e d = refl
    later-unwrap_or none e d = refl

    check_rules-verdict :
        (rules : List (AclRule Net)) (allowed : Bool)
        → check_rules contains base64_decode ip command auth rules allowed
          ≡ unwrap_or (verdict rules) allowed
    unfolding check_rules
    check_rules-verdict [] allowed = refl
    check_rules-verdict (rule ∷ rules) allowed =
        check_rules-verdict rules (apply_rule contains base64_decode ip command auth rule allowed)
        ∙ ap (unwrap_or (verdict rules)) (apply_rule-verdict rule allowed)
        ∙ later-unwrap_or (verdict rules) (rule_verdict rule) allowed

    -- A command is allowed as the last rule says that applies to the client and names the command,
    -- and it is allowed if there is none.
    pub check-verdict :
        (acl : Acl Net)
        → check contains base64_decode acl ip command auth ≡ unwrap_or (verdict acl.rules) true
    unfolding check
    check-verdict acl = go acl.rules
      where
        go :
            (rules : List (AclRule Net))
            → (if is_empty rules
                then true
                else check_rules contains base64_decode ip command auth rules true)
              ≡ unwrap_or (verdict rules) true
        go [] = refl
        go (rule ∷ rules) = check_rules-verdict (rule ∷ rules) true
