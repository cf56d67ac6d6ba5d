-- ===== src/Topics/Index/Address.antt =====
-- The address of a filter, and what the index holds for a client there.
use mqtt_protocol_v.Common.{
  ◌≡◌, refl, sym, ◌∙◌, Bool, true, false, ◌&&◌, Option, none, some, List, [], ◌∷◌, Bool-cases,
  arith, inl, inr, if◌then◌else◌, ◌↔◌,
}
use mqtt_protocol_v.Common.Equality.{Bytes, bytes_eq, bytes_eq_iff, bytes_instance}
use mqtt_protocol_v.Common.Map
use mqtt_protocol_v.Common.Map.{has, lookup, delete, lookup-insert, lookup-delete}
use mqtt_protocol_v.Packets.Packet.{Subscription}
use mqtt_protocol_v.Topics.Levels.{levels}
use mqtt_protocol_v.Topics.Filters.{is_shared_filter}
use mqtt_protocol_v.Topics.Stores.{SharedSubscriptions, SharedSubscriptions, get_shared}
use mqtt_protocol_v.Topics.Stores.Groups.{lookup-empty}
use mqtt_protocol_v.Topics.Tree.{shared_len, is_empty_node, Node, new_node, node_at}
use mqtt_protocol_v.Topics.Index.{TopicsIndex, group_of}

-- Where a subscription stands: the path of its levels, and the group of a shared one.
pub record Address : Type 0 where
  pub path : List Bytes
  pub group : Option Bytes

abbrev pub shared_address : Bytes → Address
shared_address filter = record { path = levels filter 2; group = some (group_of filter) }

abbrev pub plain_address : Bytes → Address
plain_address filter = record { path = levels filter 0; group = none }

-- the address of a filter
abbrev pub address : Bytes → Address
address filter = if is_shared_filter filter then shared_address filter else plain_address filter

abbrev pub held_in : Node → Option Bytes → Bytes → Option Subscription
held_in n none client = Map.lookup client n.subscriptions
held_in n (some group) client = get_shared group client n.shared

-- The abstract view of an index: the subscription of a client at an address.
abbrev pub held : TopicsIndex → Address → Bytes → Option Subscription
held x a client = held_in (node_at a.path x.root) a.group client

abbrev pub path_eq : List Bytes → List Bytes → Bool
path_eq [] [] = true
path_eq (a ∷ l) (b ∷ r) = bytes_eq a b && path_eq l r
path_eq _ _ = false

abbrev pub group_eq : Option Bytes → Option Bytes → Bool
group_eq none none = true
group_eq (some a) (some b) = bytes_eq a b
group_eq _ _ = false

abbrev pub same_address : Address → Address → Bool
same_address a b = path_eq a.path b.path && group_eq a.group b.group

pub path_eq_iff : (a b : List Bytes) → (path_eq a b ≡ true) ↔ (a ≡ b)
path_eq_iff [] [] = ground arith
path_eq_iff [] (b ∷ r) = ground arith
path_eq_iff (a ∷ l) [] = ground arith
path_eq_iff (a ∷ l) (b ∷ r) = ground (arith, bytes_eq_iff a b, path_eq_iff l r)

pub group_eq_iff : (a b : Option Bytes) → (group_eq a b ≡ true) ↔ (a ≡ b)
group_eq_iff none none = ground arith
group_eq_iff none (some b) = ground arith
group_eq_iff (some a) none = ground arith
group_eq_iff (some a) (some b) = ground (arith, bytes_eq_iff a b)

pub same_address_refl : (a : Address) → same_address a a ≡ true
same_address_refl a =
    rw ((path_eq_iff a.path a.path).1 refl, (group_eq_iff a.group a.group).1 refl) refl

-- the entry of one client in one group of a node
abbrev pub shown : Option Bytes → Bytes → Node → Option Subscription
shown g j n = held_in n g j

no_groups : (g j : Bytes) (s : SharedSubscriptions) → shared_len s ≡ 0 → get_shared g j s ≡ none
unfolding shared_len get_shared lookup
no_groups g j [] h = refl
no_groups g j ((k, subs) ∷ s) h = elim (Bool-cases (bytes_eq k g)) [
  | inl same ↦ rw same (lookup-empty j subs (omega arith))
  | inr apart ↦ rw apart (no_groups g j s (omega arith))
]

-- an empty node shows nothing
shown-empty :
    (g : Option Bytes) (j : Bytes) (n : Node) → is_empty_node n ≡ true → shown g j n ≡ none
unfolding is_empty_node
shown-empty none j n h = lookup-empty j n.subscriptions (ground arith)
shown-empty (some g) j n h = no_groups g j n.shared (ground arith)

shown-new : (g : Option Bytes) (j : Bytes) → shown g j new_node ≡ none
unfolding get_shared lookup
shown-new none j = refl
shown-new (some g) j = refl

pub blank_shown :
    (g : Option Bytes) (j : Bytes) (n : Node)
    → is_empty_node n ≡ true
    → shown g j n ≡ shown g j new_node
blank_shown g j n h = shown-empty g j n h ∙ sym (shown-new g j)
