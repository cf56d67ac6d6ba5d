-- ===== src/Auth/Rules.antt =====
-- Which rules decide.
use mathlib.Core.Bool.{Bool-set}
use mathlib.Core.List.{Perm, foldr}
use mathlib.Core.List.Perm
use mqtt_protocol_v.Common.{
  ℕ, suc, ◌+◌, ◌≡◌, ◌⊎◌, refl, ap, ◌∙◌, Bool, true, false, ◌&&◌, ◌||◌, Option, none, some, List, [],
  ◌∷◌, ◌++◌, arith, All, length, Bool-cases, Option-cases, inl, inr, if◌then◌else◌,
}
use mqtt_protocol_v.Common.Equality.{Bytes, bytes_eq, bytes_eq_iff}
use mqtt_protocol_v.Auth.{
  Ledger, ClientInfo, UserRule, AuthRule, AclRule, Filters, Access, grants, filter_matches,
  any_grants, any_matches, rule_verdict, auth_applies, auth_loop, auth_ok, known_user, user_of,
  acl_applies, acl_loop, acl_ok, user_acl,
}

or_swap : (a b c : Bool) → (a || (b || c)) ≡ (b || (a || c))
or_swap a b c = ground arith

abbrev granting : Bytes → Bool → Bytes × Access → Bool → Bool
granting topic write f found = grants write f.1 && filter_matches f.0 topic || found

abbrev matching : Bytes → Bytes × Access → Bool → Bool
matching topic f found = filter_matches f.0 topic || found

abbrev present : Bytes × Access → Bool → Bool
present f found = true

grants-foldr :
    (fs : Filters) (topic : Bytes) (write : Bool)
    → any_grants fs topic write ≡ foldr (granting topic write) false fs
unfolding any_grants
grants-foldr [] topic write = refl
grants-foldr (f ∷ fs) topic write = ap (granting topic write f) (grants-foldr fs topic write)

matches-foldr :
    (fs : Filters) (topic : Bytes) → any_matches fs topic ≡ foldr (matching topic) false fs
unfolding any_matches
matches-foldr [] topic = refl
matches-foldr (f ∷ fs) topic = ap (matching topic f) (matches-foldr fs topic)

abbrev verdict : Bool → Bool → Bool → Option Bool
verdict some_filter granted matched =
    if some_filter
    then (if granted then some true else if matched then some false else none)
    else some true

verdict_lem :
    (fs : Filters) (topic : Bytes) (write : Bool)
    → rule_verdict fs topic write
      ≡ verdict (foldr present false fs) (any_grants fs topic write) (any_matches fs topic)
unfolding rule_verdict
verdict_lem [] topic write = refl
verdict_lem (f ∷ fs) topic write = refl

-- What a rule says does not depend on the order in which its filters are visited.
pub rule_verdict-Perm :
    (fs gs : Filters) (topic : Bytes) (write : Bool)
    → Perm fs gs
    → rule_verdict fs topic write ≡ rule_verdict gs topic write
rule_verdict-Perm fs gs topic write p = rw (
  verdict_lem fs topic write,
  verdict_lem gs topic write,
  grants-foldr fs topic write,
  grants-foldr gs topic write,
  matches-foldr fs topic,
  matches-foldr gs topic,
  Perm.foldr-eq Bool-set present (λ f g b. refl) p false,
  Perm.foldr-eq Bool-set (granting topic write) (λ f g b. or_swap _ _ b) p false,
  Perm.foldr-eq Bool-set (matching topic) (λ f g b. or_swap _ _ b) p false,
)

-- A list of rules splits at the `n`-th, which satisfies `Here` where all before it satisfy
-- `Before`.
pub record SplitsAt {A : Type 0} (Before Here : A → Type 0) (rules : List A) (n : ℕ) : Type 0 where
  pub before : List A
  pub rule : A
  pub after : List A
  pub whole : rules ≡ before ++ rule ∷ after
  pub passed : All Before before
  pub decides : Here rule
  pub index : n ≡ length before

module _ (cl : ClientInfo) (password : Bytes) where
  abbrev pub Ignores : AuthRule → Type 0
  Ignores rule = auth_applies cl password rule ≡ false

  abbrev pub Admits : AuthRule → Type 0
  Admits rule = (auth_applies cl password rule ≡ true) × (rule.allow ≡ true)

  loop-Admits :
      (k : ℕ) (rules : List AuthRule)
      → (auth_loop cl password k rules).1 ≡ true
      → (before : List AuthRule) × (rule : AuthRule) × (after : List AuthRule) × (rules
          ≡ before ++ rule ∷ after)
        × All Ignores before
        × Admits rule
        × ((auth_loop cl password k rules).0 ≡ k + length before)
  unfolding auth_loop
  loop-Admits k [] e = cc
  loop-Admits k (rule ∷ rules) e = elim (Bool-cases (auth_applies cl password rule)) [
    | inl applies ↦
        ([], rule, rules, refl, tt, (applies, rw applies at e), rw applies (omega arith))
    | inr other ↦
        let (before, r, after, whole, passed, decides, index) =
          loop-Admits (suc k) rules (rw other at e) in
        (
          rule ∷ before,
          r,
          after,
          ap (λ t. rule ∷ t) whole,
          (other, passed),
          decides,
          rw other (omega (arith, index)),
        )
  ]

  -- The user that a ledger knows under the name has the password given, which is not empty, and is
  -- not disallowed.
  abbrev pub IsTrusted : Option UserRule → Type 0
  IsTrusted none = ⊥
  IsTrusted (some u) =
      (u.password ≡ password) × (u.disallow ≡ false) × (bytes_eq u.password [] ≡ false)

  known-IsTrusted : (o : Option UserRule) → known_user o password ≡ some true → IsTrusted o
  unfolding known_user
  known-IsTrusted none e = cc
  known-IsTrusted (some u) e = ground (arith, bytes_eq_iff u.password password)

  -- `AuthOk` lets a client in only when its user is known with this password, which is not empty,
  -- and not disallowed, or when the first rule that applies to the client allows it; the number
  -- returned is that rule's index.
  pub auth_ok_sound :
      (l : Ledger)
      → (auth_ok l cl password).1 ≡ true
      → IsTrusted (user_of l cl.username) ⊎ SplitsAt Ignores Admits l.auth (auth_ok l cl password).0
  unfolding auth_ok
  auth_ok_sound l e = elim (Option-cases (known_user (user_of l cl.username) password)) [
    | inl unknown ↦
        let (before, rule, after, whole, passed, decides, index) =
          loop-Admits 0 l.auth (rw (unknown, auth_ok) at e) in
        inr (record {
          before = before;
          rule = rule;
          after = after;
          whole = whole;
          passed = passed;
          decides = decides;
          index = rw (unknown, auth_ok) (omega (arith, index));
        })
    | inr (v, known) ↦
        inl (known-IsTrusted (user_of l cl.username) (known ∙ ap some (rw (known, auth_ok) at e)))
  ]

module _ (cl : ClientInfo) (topic : Bytes) (write : Bool) where
  -- The rule does not apply, or says nothing on the topic.
  abbrev pub IsSilent : AclRule → Type 0
  IsSilent rule = (acl_applies cl rule ≡ false) ⊎ (rule_verdict rule.filters topic write ≡ none)

  abbrev pub Denies : AclRule → Type 0
  Denies rule = (acl_applies cl rule ≡ true) × (rule_verdict rule.filters topic write ≡ some false)

  loop-Denies :
      (k : ℕ) (rules : List AclRule)
      → (acl_loop cl topic write k rules).1 ≡ false
      → (before : List AclRule) × (rule : AclRule) × (after : List AclRule) × (rules
          ≡ before ++ rule ∷ after)
        × All IsSilent before
        × Denies rule
        × ((acl_loop cl topic write k rules).0 ≡ k + length before)
  unfolding acl_loop
  loop-Denies k [] e = cc
  loop-Denies k (rule ∷ rules) e = elim (Bool-cases (acl_applies cl rule)) [
    | inr other ↦
        let (before, r, after, whole, passed, decides, index) =
          loop-Denies (suc k) rules (rw other at e) in
        (
          rule ∷ before,
          r,
          after,
          ap (λ t. rule ∷ t) whole,
          (inl other, passed),
          decides,
          rw other (omega (arith, index)),
        )
    | inl applies ↦ elim (Option-cases (rule_verdict rule.filters topic write)) [
      | inl silent ↦
          let (before, r, after, whole, passed, decides, index) =
            loop-Denies (suc k) rules (rw (applies, silent) at e) in
          (
            rule ∷ before,
            r,
            after,
            ap (λ t. rule ∷ t) whole,
            (inr silent, passed),
            decides,
            rw (applies, silent) (omega (arith, index)),
          )
      | inr (v, says) ↦ (
        [],
        rule,
        rules,
        refl,
        tt,
        (applies, says ∙ ap some (rw (applies, says) at e)),
        rw (applies, says) (omega arith),
      )
    ]
  ]

  -- `ACLOk` refuses a topic only when a filter of the client's user decides so, or when the first
  -- rule that applies and is not silent on the topic denies it; the number returned is then that
  -- rule's index.
  pub acl_ok-Denies :
      (l : Ledger)
      → (acl_ok l cl topic write).1 ≡ false
      → (user_acl (user_of l cl.username) topic write ≡ some false)
        ⊎ SplitsAt IsSilent Denies l.acl (acl_ok l cl topic write).0
  unfolding acl_ok
  acl_ok-Denies l e = elim (Option-cases (user_acl (user_of l cl.username) topic write)) [
    | inl unknown ↦
        let (before, rule, after, whole, passed, decides, index) =
          loop-Denies 0 l.acl (rw (unknown, acl_ok) at e) in
        inr (record {
          before = before;
          rule = rule;
          after = after;
          whole = whole;
          passed = passed;
          decides = decides;
          index = rw (unknown, acl_ok) (omega (arith, index));
        })
    | inr (v, says) ↦ inl (says ∙ ap some (rw (says, acl_ok) at e))
  ]
