-- ===== src/Topics/Index.antt =====
-- `TopicsIndex`: its operations on subscriptions and retained messages.
pub mod Address
pub mod Updates
pub mod Delivery
use mqtt_protocol_v.Common.{
  ℕ, Bool, true, false, not, Option, none, some, List, [], ◌∷◌, ◌==◌, ltb, length, if◌then◌else◌,
  ◌&&◌,
}
use mqtt_protocol_v.Common.Equality.{Bytes, nat_eq, bytes_instance}
use mqtt_protocol_v.Common.Int.{ℤ, pos, negsuc}
use mqtt_protocol_v.Common.Map
use mqtt_protocol_v.Common.Map.{Map, has}
use mqtt_protocol_v.Packets.Packet.{Subscription, Packet}
use mqtt_protocol_v.Topics.Levels.{levels, isolate_particle}
use mqtt_protocol_v.Topics.Filters.{is_shared_filter}
use mqtt_protocol_v.Topics.Stores.{add_shared, get_shared, delete_shared}
use mqtt_protocol_v.Topics.Tree.{Node, Particle, new_particle, change, change_trim, seek, node_at}

-- `TopicsIndex`
pub record TopicsIndex : Type 0 where
  pub retained : Map Bytes Packet
  pub root : Particle

-- `NewTopicsIndex`
abbrev pub new_index : TopicsIndex
new_index = record { retained = []; root = new_particle }

-- the group of a shared filter
abbrev pub group_of : Bytes → Bytes
group_of filter = (isolate_particle filter 1).0

-- changes of one node
abbrev pub with_client : Bytes → Subscription → Node → Node
with_client client sub n = record n { subscriptions = Map.insert client sub n.subscriptions }

abbrev pub without_client : Bytes → Node → Node
without_client client n = record n { subscriptions = Map.delete client n.subscriptions }

abbrev pub with_shared : Bytes → Bytes → Subscription → Node → Node
with_shared group client sub n = record n { shared = add_shared group client sub n.shared }

abbrev pub without_shared : Bytes → Bytes → Node → Node
without_shared group client n = record n { shared = delete_shared group client n.shared }

-- `Subscribe`: whether the subscription is new
unfoldable pub subscribe : TopicsIndex → Bytes → Subscription → TopicsIndex × Bool
subscribe x client sub =
    if is_shared_filter sub.filter
    then (let path = levels sub.filter 2 in
        let group = group_of sub.filter in
        (
          record x { root = change path (with_shared group client sub) x.root },
          not (has (get_shared group client (node_at path x.root).shared)),
        ))
    else (let path = levels sub.filter 0 in
        (
          record x { root = change path (with_client client sub) x.root },
          not (has (Map.lookup client (node_at path x.root).subscriptions)),
        ))

-- where `Unsubscribe` finds a particle, it changes it, trims, and answers `true`
unsubscribe_at : TopicsIndex → List Bytes → (Node → Node) → Option Particle → TopicsIndex × Bool
unsubscribe_at x path f none = (x, false)
unsubscribe_at x path f (some p) = (record x { root = change_trim path f x.root }, true)

-- `Unsubscribe`
unfoldable pub unsubscribe : TopicsIndex → Bytes → Bytes → TopicsIndex × Bool
unfolding unsubscribe_at
unsubscribe x filter client =
    if is_shared_filter filter
    then (let path = levels filter 2 in
        unsubscribe_at x path (without_shared (group_of filter) client) (seek path x.root))
    else (let path = levels filter 0 in
        unsubscribe_at x path (without_client client) (seek path x.root))

-- `InlineSubscribe`
unfoldable pub inline_subscribe : TopicsIndex → Subscription → TopicsIndex × Bool
inline_subscribe x sub =
    let path = levels sub.filter 0 in
    (
      record x {
        root =
            change path (λ n. record n { inline = Map.insert sub.identifier sub n.inline }) x.root;
      },
      not (has (Map.lookup sub.identifier (node_at path x.root).inline)),
    )

abbrev without_inline : ℕ → Node → Node
without_inline id n = record n { inline = Map.delete id n.inline }

-- `InlineUnsubscribe`, which trims only where no inline subscription is left
inline_unsubscribe_at : TopicsIndex → List Bytes → ℕ → Option Particle → TopicsIndex × Bool
inline_unsubscribe_at x path id none = (x, false)
inline_unsubscribe_at x path id (some p) =
    if length (Map.delete id (node_at path x.root).inline) == 0
    then (record x { root = change_trim path (without_inline id) x.root }, true)
    else (record x { root = change path (without_inline id) x.root }, true)

unfoldable pub inline_unsubscribe : TopicsIndex → ℕ → Bytes → TopicsIndex × Bool
unfolding inline_unsubscribe_at
inline_unsubscribe x id filter =
    let path = levels filter 0 in inline_unsubscribe_at x path id (seek path x.root)

-- whether a message with a payload is retained already
was_retained : Option Packet → Bool
was_retained none = false
was_retained (some pk) = ltb 0 (length pk.payload) && pk.fixed_header.retain

-- `RetainMessage`: 1 where a message is added, -1 where one is removed, 0 otherwise
unfoldable pub retain_message : TopicsIndex → Packet → TopicsIndex × ℤ
unfolding was_retained
retain_message x pk =
    let path = levels pk.topic_name 0 in
    if ltb 0 (length pk.payload)
    then (
      record x {
        retained = Map.insert pk.topic_name pk x.retained;
        root = change path (λ n. record n { retain_path = pk.topic_name }) x.root;
      },
      pos 1,
    )
    else (
      record x {
        retained = Map.delete pk.topic_name x.retained;
        root = change_trim path (λ n. record n { retain_path = [] }) (change path (λ n. n) x.root);
      },
      if was_retained (Map.lookup pk.topic_name x.retained) then negsuc 0 else pos 0,
    )
