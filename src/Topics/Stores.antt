-- ===== src/Topics/Stores.antt =====
-- The maps of subscriptions of broker/topics.go, and `Merge` of broker/packets/packets.go.
pub mod Groups
use mqtt_protocol_v.Common.{
  ℕ, ◌+◌, Bool, true, false, ◌||◌, Option, none, some, List, [], ◌∷◌, ltb, ◌==◌, length,
  if◌then◌else◌,
}
use mqtt_protocol_v.Common.Equality.{Bytes, nat_eq, bytes_instance}
use mqtt_protocol_v.Common.Map
use mqtt_protocol_v.Common.Map.{Map}
use mqtt_protocol_v.Packets.Packet.{Subscription}

-- `Subscriptions`, keyed on client
abbrev pub Subscriptions : Type 0
Subscriptions = Map Bytes Subscription

-- `SharedSubscriptions`, keyed on group, then client
abbrev pub SharedSubscriptions : Type 0
SharedSubscriptions = Map Bytes Subscriptions

-- `InlineSubscriptions`, keyed on identifier, without their handlers
abbrev pub InlineSubscriptions : Type 0
InlineSubscriptions = Map ℕ Subscription

abbrev pub or_empty : Option Subscriptions → Subscriptions
or_empty none = []
or_empty (some subs) = subs

-- `SharedSubscriptions.Add`
unfoldable pub add_shared : Bytes → Bytes → Subscription → SharedSubscriptions → SharedSubscriptions
add_shared group id val s = Map.insert group (Map.insert id val (or_empty (Map.lookup group s))) s

-- `SharedSubscriptions.Get`
unfoldable pub get_shared : Bytes → Bytes → SharedSubscriptions → Option Subscription
get_shared group id s = Map.lookup id (or_empty (Map.lookup group s))

-- `SharedSubscriptions.Delete`
unfoldable pub delete_shared : Bytes → Bytes → SharedSubscriptions → SharedSubscriptions
delete_shared group id s = elim (Map.lookup group s) [
  | none ↦ s
  | some subs ↦
      let left = Map.delete id subs in
      if length left == 0 then Map.delete group s else Map.insert group left s
]

-- `Subscribers`
pub record Subscribers : Type 0 where
  pub shared : SharedSubscriptions
  pub shared_selected : Subscriptions
  pub subscriptions : Subscriptions
  pub inline : InlineSubscriptions

abbrev pub no_subscribers : Subscribers
no_subscribers = record { shared = []; shared_selected = []; subscriptions = []; inline = [] }

-- the map of identifiers that `Merge` starts from
identifiers_of : Subscription → Option (Map Bytes ℕ) → Map Bytes ℕ
identifiers_of s none = (s.filter, s.identifier) ∷ []
identifiers_of s (some ids) = ids

-- `Subscription.Merge`
unfoldable pub merge : Subscription → Subscription → Subscription
unfolding identifiers_of
merge s n =
    let ids = identifiers_of s s.identifiers in
    record s {
      identifiers = some (if ltb 0 n.identifier then Map.insert n.filter n.identifier ids else ids);
      qos = if ltb s.qos n.qos then n.qos else s.qos;
      no_local = n.no_local || s.no_local;
    }

-- what the loops do with a client's subscription: merge it with the one found so far
unfoldable pub add_merged : Bytes → Subscription → Subscriptions → Subscriptions
unfolding merge
add_merged client sub subs = elim (Map.lookup client subs) [
  | none ↦ Map.insert client (merge sub sub) subs
  | some cls ↦ Map.insert client (merge cls sub) subs
]

-- `SelectShared`: the first client of each group, in the order in which the map is visited
select_groups : SharedSubscriptions → Subscriptions → Subscriptions
select_groups [] selected = selected
select_groups ((filter, []) ∷ groups) selected = select_groups groups selected
select_groups ((filter, (client, sub) ∷ subs) ∷ groups) selected =
    select_groups groups (add_merged client sub selected)

unfoldable pub select_shared : Subscribers → Subscribers
unfolding select_groups
select_shared s = record s { shared_selected = select_groups s.shared [] }

-- `MergeSharedSelected`
merge_all : Subscriptions → Subscriptions → Subscriptions
merge_all [] subs = subs
merge_all ((client, sub) ∷ selected) subs = merge_all selected (add_merged client sub subs)

unfoldable pub merge_shared_selected : Subscribers → Subscribers
unfolding merge_all
merge_shared_selected s = record s { subscriptions = merge_all s.shared_selected s.subscriptions }
