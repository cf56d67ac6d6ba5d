-- ===== src/Topics/Scan.antt =====
-- `scanSubscribers` and what it gathers.
pub mod Gathered
pub mod Covering
use mqtt_protocol_v.Common.{
  ℕ, Bool, true, false, ◌&&◌, ◌||◌, Option, none, some, List, [], ◌∷◌, ◌==◌, if◌then◌else◌,
}
use mqtt_protocol_v.Common.Equality.{Bytes, bytes_eq, codes, nat_eq, bytes_instance}
use mqtt_protocol_v.Common.Map
use mqtt_protocol_v.Packets.Packet.{Subscription}
use mqtt_protocol_v.Topics.Levels.{levels}
use mqtt_protocol_v.Topics.Stores.{
  Subscriptions, SharedSubscriptions, InlineSubscriptions, Subscribers, no_subscribers, or_empty,
  add_merged,
}
use mqtt_protocol_v.Topics.Tree.{Node, Particle, particle, get}

abbrev pub plus : Bytes
plus = codes "+"

abbrev pub hash : Bytes
hash = codes "#"

-- the first byte of a text, if any, is one of two
abbrev starts : ℕ → ℕ → Bytes → Bool
starts a b [] = false
starts a b (c ∷ cs) = c == a || c == b

-- The `continue` of `gatherSubscriptions`: a filter with a wildcard at its top does not match a topic
-- that begins with a dollar.
unfoldable pub is_hidden : Bytes → Subscription → Bool
is_hidden topic sub = starts b'$' b'$' topic && starts b'+' b'#' sub.filter

-- the loop of `gatherSubscriptions`
gather_clients : Bytes → Subscriptions → Subscriptions → Subscriptions
unfolding is_hidden
gather_clients topic [] found = found
gather_clients topic ((client, sub) ∷ subs) found =
    gather_clients topic subs (if is_hidden topic sub then found else add_merged client sub found)

-- the loops of `gatherSharedSubscriptions`, keyed on filter, then client
gather_group : Subscriptions → SharedSubscriptions → SharedSubscriptions
gather_group [] shared = shared
gather_group ((client, sub) ∷ subs) shared =
    gather_group subs (
      Map.insert sub.filter (Map.insert client sub (or_empty (Map.lookup sub.filter shared)))
        shared)

gather_shared : SharedSubscriptions → SharedSubscriptions → SharedSubscriptions
gather_shared [] shared = shared
gather_shared ((group, subs) ∷ groups) shared = gather_shared groups (gather_group subs shared)

-- the loop of `gatherInlineSubscriptions`
gather_inline : InlineSubscriptions → InlineSubscriptions → InlineSubscriptions
gather_inline [] found = found
gather_inline ((id, sub) ∷ subs) found = gather_inline subs (Map.insert id sub found)

-- The three gatherings: clients and groups of one node, inline subscriptions of another.
unfoldable pub gather : Bytes → Node → Node → Subscribers → Subscribers
unfolding gather_clients gather_group gather_shared gather_inline
gather topic n inline_node subs = record subs {
  subscriptions = gather_clients topic n.subscriptions subs.subscriptions;
  shared = gather_shared n.shared subs.shared;
  inline = gather_inline inline_node.inline subs.inline;
}

-- The child `#` of a particle at the end of a topic; the source takes the inline subscriptions of the
-- particle itself.
wild_end : Bytes → Bytes → Node → Option Particle → Subscribers → Subscribers
unfolding gather
wild_end topic part_key n none subs = subs
wild_end topic part_key n (some (particle wild _)) subs =
    if bytes_eq part_key plus then subs else gather topic wild n subs

-- what is gathered at the end of a topic
unfoldable pub end_of : Bytes → Bytes → Option Particle → Subscribers → Subscribers
unfolding gather wild_end
end_of topic part_key none subs = subs
end_of topic part_key (some (particle n ps)) subs =
    wild_end topic part_key n (get hash ps) (gather topic n n subs)

-- the child `#` of a particle on the way
unfoldable pub below_hash : Bytes → Option Particle → Subscribers → Subscribers
unfolding gather
below_hash topic none subs = subs
below_hash topic (some (particle n ps)) subs = gather topic n n subs

-- a child of a particle on the way, by the scan of the rest of the topic
unfoldable pub descend :
    Option Particle → (Particle → Subscribers → Subscribers) → Subscribers → Subscribers
descend none go subs = subs
descend (some p) go subs = go p subs

-- `scanSubscribers`, along the keys of the topic
unfoldable pub scan : Bytes → List Bytes → Particle → Subscribers → Subscribers
unfolding end_of below_hash descend
scan topic [] p subs = subs
scan topic (key ∷ []) (particle n ps) subs =
    below_hash topic (get hash ps)
      (end_of topic plus (get plus ps) (end_of topic key (get key ps) subs))
scan topic (key ∷ next ∷ keys) (particle n ps) subs = below_hash topic (get hash ps) (
    descend (get plus ps) (scan topic (next ∷ keys))
      (descend (get key ps) (scan topic (next ∷ keys)) subs))

-- `Subscribers`
unfoldable pub subscribers : Particle → Bytes → Subscribers
unfolding scan
subscribers root [] = no_subscribers
subscribers root (b ∷ topic) = scan (b ∷ topic) (levels (b ∷ topic) 0) root no_subscribers
