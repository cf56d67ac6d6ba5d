-- ===== src/Auth.antt =====
-- broker/hooks/auth: AllowAll is allow_all.go, the rest ledger.go: who may connect, and who may use
-- which topic. The lock is left out, and ToJSON, ToYAML and Unmarshal are calls of libraries.
pub mod Topics
pub mod Rules
pub mod AllowAll
mod Runs
use mqtt_protocol_v.Common.{
  ℕ, suc, ◌+◌, Bool, true, false, ◌&&◌, ◌||◌, not, Option, none, some, List, [], ◌∷◌, ◌++◌, ltb,
  length, take, if◌then◌else◌,
}
use mqtt_protocol_v.Common.Equality.{Bytes, bytes_eq, bytes_instance, codes}
use mqtt_protocol_v.Common.Map
use mqtt_protocol_v.Common.Map.{Map}
use mqtt_protocol_v.Common.Split.{index_of, split, join}

pub data Access : Type 0 where
  deny read_only write_only read_write : Access

-- `Filters`, in the order in which the map is visited; an `RString` is its bytes.
abbrev pub Filters : Type 0
Filters = List (Bytes × Access)

-- `UserRule`; its Username is never read.
pub record UserRule : Type 0 where
  pub password : Bytes
  pub acl : Filters
  pub disallow : Bool

pub record AuthRule : Type 0 where
  pub client : Bytes
  pub username : Bytes
  pub remote : Bytes
  pub password : Bytes
  pub allow : Bool

-- `ACLRule`
pub record AclRule : Type 0 where
  pub client : Bytes
  pub username : Bytes
  pub remote : Bytes
  pub filters : Filters

-- `Ledger`; a `nil` map of users is `none`.
pub record Ledger : Type 0 where
  pub users : Option (Map Bytes UserRule)
  pub auth : List AuthRule
  pub acl : List AclRule

-- what the ledger reads of a client
pub record ClientInfo : Type 0 where
  pub id : Bytes
  pub username : Bytes
  pub remote : Bytes

-- the prefix test of `RString.Matches`, at the index of the star
prefix_matches : Bytes → Bytes → Option ℕ → Bool
prefix_matches rr a none = false
prefix_matches rr a (some i) = ltb 0 i && ltb i (length a) && bytes_eq (take i rr) (take i a)

-- `RString.Matches`
unfoldable pub matches : Bytes → Bytes → Bool
unfolding prefix_matches
matches rr a =
    if bytes_eq rr [] || bytes_eq rr (codes "*") || bytes_eq a rr
    then true
    else prefix_matches rr a (index_of b'*' rr)

abbrev plus : Bytes
plus = codes "+"

abbrev hash : Bytes
hash = codes "#"

-- the loop of `MatchTopic`: the elements collected, and whether the topic is matched
match_parts : List Bytes → List Bytes → List Bytes → List Bytes × Bool
match_parts [] topic elements = (elements, true)
match_parts (f ∷ fs) [] elements = (elements, false)
match_parts (f ∷ fs) (t ∷ ts) elements =
    let rest = match_parts fs ts (if bytes_eq f plus then elements ++ t ∷ [] else elements) in
    if bytes_eq f plus
    then rest
    else if bytes_eq f hash
    then (elements ++ join b'/' (t ∷ ts) ∷ [], true)
    else if bytes_eq f t
    then rest
    else (elements, false)

-- `MatchTopic`
unfoldable pub match_topic : Bytes → Bytes → List Bytes × Bool
unfolding match_parts
match_topic filter topic = match_parts (split b'/' filter) (split b'/' topic) []

-- `RString.FilterMatches`
abbrev pub filter_matches : Bytes → Bytes → Bool
filter_matches r a = (match_topic r a).1

-- `Ledger.Update`
unfoldable pub update : Ledger → Ledger → Ledger
update l ln = record l { auth = ln.auth; acl = ln.acl }

-- the user whose rule decides, where there is one
unfoldable pub user_of : Ledger → Bytes → Option UserRule
user_of l name = elim l.users [ none ↦ none | some users ↦ Map.lookup name users ]

abbrev pub auth_applies : ClientInfo → Bytes → AuthRule → Bool
auth_applies cl password rule =
    matches rule.client cl.id
    && matches rule.username cl.username
    && matches rule.password password
    && matches rule.remote cl.remote

-- the loop over the rules, from the rule's index
auth_loop : ClientInfo → Bytes → ℕ → List AuthRule → ℕ × Bool
auth_loop cl password n [] = (0, false)
auth_loop cl password n (rule ∷ rules) =
    let rest = auth_loop cl password (suc n) rules in
    if auth_applies cl password rule then (n, rule.allow) else rest

-- the verdict of a user's own rule, with its password
unfoldable pub known_user : Option UserRule → Bytes → Option Bool
known_user none password = none
known_user (some u) password =
    if not (bytes_eq u.password []) && bytes_eq u.password password
    then some (not u.disallow)
    else none

-- `AuthOk`
unfoldable pub auth_ok : Ledger → ClientInfo → Bytes → ℕ × Bool
unfolding auth_loop
auth_ok l cl password = elim (known_user (user_of l cl.username) password) [
  | none ↦ auth_loop cl password 0 l.auth
  | some allowed ↦ (0, allowed)
]

abbrev pub grants : Bool → Access → Bool
grants write deny = false
grants write read_only = not write
grants write write_only = write
grants write read_write = true

-- the loop over the filters of a user: the first that matches decides
user_filters : Filters → Bytes → Bool → Option Bool
user_filters [] topic write = none
user_filters ((filter, access) ∷ rest) topic write =
    if filter_matches filter topic
    then some (grants write access)
    else user_filters rest topic write

-- the loops over the filters of a rule: whether one grants the access, and whether one matches
any_grants : Filters → Bytes → Bool → Bool
any_grants [] topic write = false
any_grants ((filter, access) ∷ rest) topic write =
    grants write access && filter_matches filter topic || any_grants rest topic write

any_matches : Filters → Bytes → Bool
any_matches [] topic = false
any_matches ((filter, access) ∷ rest) topic = filter_matches filter topic || any_matches rest topic

-- what a rule that applies says, if anything
unfoldable pub rule_verdict : Filters → Bytes → Bool → Option Bool
unfolding any_grants any_matches
rule_verdict [] topic write = some true
rule_verdict (f ∷ fs) topic write =
    if any_grants (f ∷ fs) topic write
    then some true
    else if any_matches (f ∷ fs) topic
    then some false
    else none

abbrev pub acl_applies : ClientInfo → AclRule → Bool
acl_applies cl rule =
    matches rule.client cl.id && matches rule.username cl.username && matches rule.remote cl.remote

-- the loop over the rules
acl_loop : ClientInfo → Bytes → Bool → ℕ → List AclRule → ℕ × Bool
acl_loop cl topic write n [] = (0, true)
acl_loop cl topic write n (rule ∷ rules) =
    let rest = acl_loop cl topic write (suc n) rules in
    if acl_applies cl rule
    then (elim (rule_verdict rule.filters topic write) [ none ↦ rest | some ok ↦ (n, ok) ])
    else rest

-- the verdict of a user's own filters
unfoldable pub user_acl : Option UserRule → Bytes → Bool → Option Bool
unfolding user_filters
user_acl none topic write = none
user_acl (some u) topic write = user_filters u.acl topic write

-- `ACLOk`
unfoldable pub acl_ok : Ledger → ClientInfo → Bytes → Bool → ℕ × Bool
unfolding acl_loop
acl_ok l cl topic write = elim (user_acl (user_of l cl.username) topic write) [
  | none ↦ acl_loop cl topic write 0 l.acl
  | some ok ↦ (0, ok)
]
