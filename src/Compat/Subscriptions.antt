-- ===== src/Compat/Subscriptions.antt =====
-- What the control commands do to the sets of channels and patterns of a session.
use redis_web.Prelude.{
  ℕ, suc, Bool, false, ◌||◌, Option, some, List, [], ◌∷◌, ◌≡◌, refl, sym, ◌∙◌, ap, arith, length,
  if◌then◌else◌, is_empty, ok, Option-cases, Bool-cases, Result-cases, inl, inr,
}
use redis_web.Text.{Bytes, eq_bytes, eq_bytes_cases}
use redis_web.Compat.Control.{
  has, set_insert, set_remove, targets_of, Control, subscribe, psubscribe, unsubscribe,
  punsubscribe, control_of, each_target, unsubscribe_from, run_control, handle_pubsub_command,
}

-- no member twice
abbrev pub Distinct : List Bytes → Type 0
Distinct [] = Unit
Distinct (t ∷ set) = (has t set ≡ false) × Distinct set

has-set_insert :
    (m t : Bytes) (set : List Bytes) → has m (set_insert t set) ≡ (eq_bytes m t || has m set)
unfolding set_insert
has-set_insert m t set = ground (arith, eq_bytes_cases m t)

has-set_remove :
    (m t : Bytes) (set : List Bytes)
    → has m (set_remove t set) ≡ (if eq_bytes t m then false else has m set)
unfolding set_remove
has-set_remove m t [] = ground arith
has-set_remove m t (u ∷ set) =
    ground
      (arith, has-set_remove m t set, eq_bytes_cases t u, eq_bytes_cases m u, eq_bytes_cases t m)

set_insert-Distinct : (t : Bytes) (set : List Bytes) → Distinct set → Distinct (set_insert t set)
unfolding set_insert
set_insert-Distinct t set d = ground arith

set_remove-Distinct : (t : Bytes) (set : List Bytes) → Distinct set → Distinct (set_remove t set)
unfolding set_remove
set_remove-Distinct t [] d = tt
set_remove-Distinct t (u ∷ set) (new, d) =
    ground (arith, set_remove-Distinct t set d, has-set_remove u t set)

module _ {S : Type 0} (call : Control → Bytes → S → Option Bytes × S) where
  -- the loop over the targets keeps a property of the set that each change keeps
  each_target-keeps :
      (P : List Bytes → Type 0) (control : Control) (change : Bytes → List Bytes → List Bytes)
      → ((t : Bytes) (set : List Bytes) → P set → P (change t set))
      → (ts own : List Bytes) (others : ℕ) (s : S) → P own
      → P (each_target call control change ts own others s).1
  unfolding each_target
  each_target-keeps P control change keeps [] own others s h = h
  each_target-keeps P control change keeps (t ∷ ts) own others s h =
      elim (Option-cases (call control t s).0) [
        | inl e ↦
            rw (e, each_target)
              (each_target-keeps P control change keeps ts (change t own) others
                (call control t s).1 (keeps t own h))
        | inr (message, e) ↦ rw (e, each_target) h
      ]

  abbrev after_all : (Bytes → Bool → Bool) → List Bytes → Bool → Bool
  after_all member [] b = b
  after_all member (t ∷ ts) b = after_all member ts (member t b)

  -- a success of the loop is one of its first call and one of the rest
  each_target-ok {ℓ} :
      {A : Type ℓ} (control : Control) (change : Bytes → List Bytes → List Bytes) (t : Bytes)
      (ts own : List Bytes) (others : ℕ) (s : S) (replies : List Bytes)
      → (each_target call control change (t ∷ ts) own others s).0 ≡ ok replies
      → ((rest : List Bytes)
          → (each_target call control change ts (change t own) others (call control t s).1).0
            ≡ ok rest
          → length replies ≡ suc (length rest)
          → (each_target call control change (t ∷ ts) own others s).1
            ≡ (each_target call control change ts (change t own) others (call control t s).1).1
          → A)
      → A
  unfolding each_target
  each_target-ok control change t ts own others s replies e k =
      elim (Option-cases (call control t s).0) [
        | inl h ↦
            elim (Result-cases
              (each_target call control change ts (change t own) others (call control t s).1).0) [
                | inl (message, r) ↦ cc (h, r, e)
                | inr (rest, r) ↦ k rest r (ground (arith, h, r, e)) (rw (h, each_target) refl)
              ]
        | inr (message, h) ↦ cc (h, e)
      ]

  each_target-has :
      (m : Bytes) (member : Bytes → Bool → Bool) (control : Control)
      (change : Bytes → List Bytes → List Bytes)
      → ((t : Bytes) (set : List Bytes) → has m (change t set) ≡ member t (has m set))
      → (ts own : List Bytes) (others : ℕ) (s : S) (replies : List Bytes)
      → (each_target call control change ts own others s).0 ≡ ok replies
      → (has m (each_target call control change ts own others s).1
          ≡ after_all member ts (has m own))
        × (length replies ≡ length ts)
  each_target-has m member control change tells [] own others s replies e =
      unfold each_target in (refl, ground (arith, e))
  each_target-has m member control change tells (t ∷ ts) own others s replies e =
      each_target-ok control change t ts own others s replies e λ rest r size same.
        let (found, sizes) =
          each_target-has m member control change tells ts (change t own) others
            (call control t s).1 rest r in
        (
          ap (has m) same ∙ found ∙ ap (after_all member ts) (tells t own),
          omega (arith, size, sizes),
        )

  after_all-insert :
      (m : Bytes) (ts : List Bytes) (b : Bool)
      → after_all (λ t b. eq_bytes m t || b) ts b ≡ (has m ts || b)
  after_all-insert m [] b = refl
  after_all-insert m (t ∷ ts) b = ground (arith, after_all-insert m ts (eq_bytes m t || b))

  after_all-remove :
      (m : Bytes) (ts : List Bytes) (b : Bool)
      → after_all (λ t b. if eq_bytes t m then false else b) ts b ≡ (if has m ts then false else b)
  after_all-remove m [] b = refl
  after_all-remove m (t ∷ ts) b = ground (
    arith,
    after_all-remove m ts (if eq_bytes t m then false else b),
    eq_bytes_cases t m,
    eq_bytes_cases m t,
  )

  unsubscribe_from-Distinct :
      (control : Control) (args own : List Bytes) (others : ℕ) (s : S)
      → Distinct own
      → Distinct (unsubscribe_from call control args own others s).1
  unfolding unsubscribe_from
  unsubscribe_from-Distinct control args own others s d =
      elim (Bool-cases (is_empty (targets_of args own))) [
        | inl e ↦ rw (e, unsubscribe_from) d
        | inr e ↦
            rw (e, unsubscribe_from)
              (each_target-keeps Distinct control set_remove set_remove-Distinct
                (targets_of args own) own others s d)
      ]

  run_control-Distinct :
      (control : Control) (args channels patterns : List Bytes) (s : S)
      → Distinct channels
      → Distinct patterns
      → Distinct (run_control call control args channels patterns s).1
        × Distinct (run_control call control args channels patterns s).2
  unfolding run_control
  run_control-Distinct subscribe [] channels patterns s dc dp = (dc, dp)
  run_control-Distinct subscribe (a ∷ args) channels patterns s dc dp = (
    each_target-keeps Distinct subscribe set_insert set_insert-Distinct (a ∷ args) channels
        (length patterns) s dc,
    dp,
  )
  run_control-Distinct psubscribe [] channels patterns s dc dp = (dc, dp)
  run_control-Distinct psubscribe (a ∷ args) channels patterns s dc dp = (
    dc,
    each_target-keeps Distinct psubscribe set_insert set_insert-Distinct (a ∷ args) patterns
        (length channels) s dp,
  )
  run_control-Distinct unsubscribe args channels patterns s dc dp =
      (unsubscribe_from-Distinct unsubscribe args channels (length patterns) s dc, dp)
  run_control-Distinct punsubscribe args channels patterns s dc dp =
      (dc, unsubscribe_from-Distinct punsubscribe args patterns (length channels) s dp)

  -- The lists that stand for the channels and the patterns of a session (hash sets) stay free of
  -- repetitions, whatever the command and wherever a call to Redis fails.
  pub handle_pubsub_command-Distinct :
      (op : Bytes) (args channels patterns : List Bytes) (s : S)
      → Distinct channels
      → Distinct patterns
      → Distinct (handle_pubsub_command call op args channels patterns s).1
        × Distinct (handle_pubsub_command call op args channels patterns s).2
  unfolding handle_pubsub_command
  handle_pubsub_command-Distinct op args channels patterns s dc dp =
      elim (Option-cases (control_of op)) [
        | inl e ↦ rw (e, handle_pubsub_command) (dc, dp)
        | inr (control, e) ↦
            rw (e, handle_pubsub_command)
              (run_control-Distinct control args channels patterns s dc dp)
      ]

  -- membership in a set after a subscription, and after an unsubscription
  abbrev pub subscribed : Bytes → List Bytes → Bool → Bool
  subscribed m args b = has m args || b

  abbrev unsubscribed : Bytes → List Bytes → Bool → Bool
  unsubscribed m args b = if is_empty args then false else if has m args then false else b

  abbrev channel_after : Control → Bytes → List Bytes → Bool → Bool
  channel_after subscribe m args b = subscribed m args b
  channel_after unsubscribe m args b = unsubscribed m args b
  channel_after _ m args b = b

  abbrev pattern_after : Control → Bytes → List Bytes → Bool → Bool
  pattern_after psubscribe m args b = subscribed m args b
  pattern_after punsubscribe m args b = unsubscribed m args b
  pattern_after _ m args b = b

  unsubscribe_from-has :
      (m : Bytes) (control : Control) (args own : List Bytes) (others : ℕ) (s : S)
      (replies : List Bytes)
      → (unsubscribe_from call control args own others s).0 ≡ ok replies
      → has m (unsubscribe_from call control args own others s).1 ≡ unsubscribed m args (has m own)
  unfolding unsubscribe_from
  unsubscribe_from-has m control [] [] others s replies e = refl
  unsubscribe_from-has m control [] (u ∷ own) others s replies e =
      (each_target-has m (λ t b. if eq_bytes t m then false else b) control set_remove
        (has-set_remove m) (u ∷ own) (u ∷ own) others s replies e).0
      ∙ (after_all-remove m (u ∷ own) (has m (u ∷ own)) ∙ ground arith)
  unsubscribe_from-has m control (a ∷ args) own others s replies e =
      (each_target-has m (λ t b. if eq_bytes t m then false else b) control set_remove
        (has-set_remove m) (a ∷ args) own others s replies e).0
      ∙ after_all-remove m (a ∷ args) (has m own)

  subscribe-has :
      (m : Bytes) (control : Control) (args own : List Bytes) (others : ℕ) (s : S)
      (replies : List Bytes)
      → (each_target call control set_insert args own others s).0 ≡ ok replies
      → has m (each_target call control set_insert args own others s).1
        ≡ subscribed m args (has m own)
  subscribe-has m control args own others s replies e =
      (each_target-has m (λ t b. eq_bytes m t || b) control set_insert (has-set_insert m) args own
        others s replies e).0
      ∙ after_all-insert m args (has m own)

  run_control-has :
      (m : Bytes) (control : Control) (args channels patterns : List Bytes) (s : S)
      (replies : List Bytes)
      → (run_control call control args channels patterns s).0 ≡ ok replies
      → (has m (run_control call control args channels patterns s).1
          ≡ channel_after control m args (has m channels))
        × (has m (run_control call control args channels patterns s).2
            ≡ pattern_after control m args (has m patterns))
  unfolding run_control
  run_control-has m subscribe [] channels patterns s replies e = cc e
  run_control-has m subscribe (a ∷ args) channels patterns s replies e =
      (subscribe-has m subscribe (a ∷ args) channels (length patterns) s replies e, refl)
  run_control-has m psubscribe [] channels patterns s replies e = cc e
  run_control-has m psubscribe (a ∷ args) channels patterns s replies e =
      (refl, subscribe-has m psubscribe (a ∷ args) patterns (length channels) s replies e)
  run_control-has m unsubscribe args channels patterns s replies e =
      (unsubscribe_from-has m unsubscribe args channels (length patterns) s replies e, refl)
  run_control-has m punsubscribe args channels patterns s replies e =
      (refl, unsubscribe_from-has m punsubscribe args patterns (length channels) s replies e)

  -- A control command that succeeds adds its arguments to the set that it is about or takes them away,
  -- all members if an unsubscription has no arguments, and leaves the other set as it is.
  pub handle_pubsub_command-has :
      (m op : Bytes) (control : Control) (args channels patterns : List Bytes) (s : S)
      (replies : List Bytes)
      → control_of op ≡ some control
      → (handle_pubsub_command call op args channels patterns s).0 ≡ ok replies
      → (has m (handle_pubsub_command call op args channels patterns s).1
          ≡ channel_after control m args (has m channels))
        × (has m (handle_pubsub_command call op args channels patterns s).2
            ≡ pattern_after control m args (has m patterns))
  unfolding handle_pubsub_command
  handle_pubsub_command-has m op control args channels patterns s replies is e =
      let same : handle_pubsub_command call op args channels patterns s
          ≡ run_control call control args channels patterns s =
        rw (is, handle_pubsub_command) in
      let (in_channels, in_patterns) =
        run_control-has m control args channels patterns s replies (sym (ap (λ r. r.0) same) ∙ e) in
      (ap (λ r. has m r.1) same ∙ in_channels, ap (λ r. has m r.2) same ∙ in_patterns)
