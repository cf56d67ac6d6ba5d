-- ===== src/Topics/Runs.antt =====
-- Runs of the topic index on concrete values, and its theorems there.
use mqtt_protocol_v.Common.{
  ◌≡◌, ◌↔◌, refl, true, false, not, ◌&&◌, some, none, List, [], ◌∷◌, arith, inl, inr, drop,
  if◌then◌else◌,
}
use mqtt_protocol_v.Common.Equality.{Bytes, bytes_eq, bytes_instance, codes}
use mqtt_protocol_v.Common.Map
use mqtt_protocol_v.Common.Map.{has}
use mqtt_protocol_v.Common.Split.{split, index_of, contains}
use mqtt_protocol_v.Packets.Packet.{Packet, no_packet, Subscription, no_subscription}
use mqtt_protocol_v.Topics.Levels.{levels, isolate_particle}
use mqtt_protocol_v.Topics.Levels.Splitting.{levels-split}
use mqtt_protocol_v.Topics.Filters.{is_shared_filter, is_valid_filter}
use mqtt_protocol_v.Topics.Stores.{add_merged}
use mqtt_protocol_v.Topics.Tree.{node_at, seek, change, change_trim, get, put, remove, new_particle}
use mqtt_protocol_v.Topics.Scan.{is_hidden, subscribers}
use mqtt_protocol_v.Topics.Scan.Gathered.{Holds, Reached}
use mqtt_protocol_v.Topics.Scan.Covering.{Covers, subscribers-Covers}
use mqtt_protocol_v.Topics.Messages.{messages}
use mqtt_protocol_v.Topics.Messages.Retained.{messages-retain_message}
use mqtt_protocol_v.Topics.Index.{retain_message, TopicsIndex, new_index, subscribe, unsubscribe}
use mqtt_protocol_v.Topics.Index.Address.{address, held, same_address}
use mqtt_protocol_v.Topics.Index.Updates.{held-subscribe, held-unsubscribe}
use mqtt_protocol_v.Topics.Index.Delivery.{subscribe-Reached}

abbrev client : Bytes
client = codes "c"

abbrev any_b : Subscription
any_b = record no_subscription { filter = codes "a/+"; qos = 1 }

abbrev parent_hash : Subscription
parent_hash = record no_subscription { filter = codes "a/#" }

abbrev with_any : TopicsIndex
with_any = (subscribe new_index client any_b).0

abbrev with_group : TopicsIndex
with_group = (subscribe with_any client (record no_subscription { filter = codes "$share/g/a" })).0

levels_wire : levels (codes "a/b//c") 0 ≡ codes "a" ∷ codes "b" ∷ [] ∷ codes "c" ∷ []
unfolding levels isolate_particle index_of
levels_wire = refl

filters_wire :
    (is_valid_filter (codes "a/#") false ≡ true)
    × (is_valid_filter (codes "a/#/b") false ≡ false)
    × (is_valid_filter (codes "$share/g/a") false ≡ true)
    × (is_valid_filter (codes "$sys/a") true ≡ false)
unfolding is_valid_filter isolate_particle index_of is_shared_filter contains
filters_wire = (refl, refl, refl, refl)

found_wire : Reached client (subscribers with_any.root (codes "a/b"))
unfolding subscribers subscribe levels isolate_particle index_of is_shared_filter change get put
    bytes_eq add_merged is_hidden Map.lookup Map.insert
found_wire = refl

not_found_wire :
    has (Map.lookup client (subscribers with_any.root (codes "a/b/c")).subscriptions) ≡ false
unfolding subscribers subscribe levels isolate_particle index_of is_shared_filter change get put
    bytes_eq add_merged is_hidden Map.lookup Map.insert
not_found_wire = refl

emptied_wire : (unsubscribe with_any (codes "a/+") client).0.root ≡ new_particle
unfolding unsubscribe subscribe levels isolate_particle index_of is_shared_filter change get put
    remove seek change_trim bytes_eq Map.lookup Map.insert Map.delete
emptied_wire = refl

abbrev said : Packet
said = record no_packet { topic_name = codes "a/b"; payload = 7 ∷ [] }

abbrev remembered : TopicsIndex
remembered = (retain_message new_index said).0

messages_wire :
    (messages remembered (codes "a/+") ≡ said ∷ [])
    × (messages remembered (codes "#") ≡ said ∷ [])
    × (messages remembered (codes "+") ≡ [])
unfolding messages retain_message levels isolate_particle index_of change get put bytes_eq contains
    Map.lookup Map.insert
messages_wire = (refl, refl, refl)

no_hash : contains b'#' (codes "a/b") ≡ false
unfolding contains
no_hash = refl

no_plus : contains b'+' (codes "a/b") ≡ false
unfolding contains
no_plus = refl

messages-retain_message_example :
    messages (retain_message remembered (record said { payload = [] })).0 (codes "a/b") ≡ []
messages-retain_message_example =
    messages-retain_message remembered (record said { payload = [] }) refl no_hash no_plus

levels-split_example : levels (codes "a/b") 1 ≡ drop 1 (split b'/' (codes "a/b"))
unfolding split
levels-split_example = levels-split (codes "a/b") 1 (omega arith)

subscribers-Covers_example : Reached client (subscribers with_any.root (b'a' ∷ codes "/b")) ↔ (
    (path : List Bytes) × Covers path (split b'/' (b'a' ∷ codes "/b"))
    × Holds (b'a' ∷ codes "/b") client (node_at path with_any.root).subscriptions)
subscribers-Covers_example = subscribers-Covers with_any.root b'a' (codes "/b") client

held-subscribe_example :
    (held (subscribe with_any client parent_hash).0 (address (codes "a/#")) client ≡ (
      if same_address (address parent_hash.filter) (address (codes "a/#")) && bytes_eq client client
      then some parent_hash
      else held with_any (address (codes "a/#")) client))
    × ((subscribe with_any client parent_hash).1
        ≡ not (has (held with_any (address parent_hash.filter) client)))
held-subscribe_example = held-subscribe with_any client parent_hash (address (codes "a/#")) client

held-unsubscribe_example :
    (held (unsubscribe with_group (codes "$share/g/a") client).0 (address (codes "a/+")) client ≡ (
      if same_address (address (codes "$share/g/a")) (address (codes "a/+"))
        && bytes_eq client client
      then none
      else held with_group (address (codes "a/+")) client))
    × ((unsubscribe with_group (codes "$share/g/a") client).1
        ≡ has (seek (address (codes "$share/g/a")).path with_group.root))
held-unsubscribe_example =
    held-unsubscribe with_group (codes "$share/g/a") client (address (codes "a/+")) client

matching_a : Covers (split b'/' (codes "a/+")) (split b'/' (b'a' ∷ codes "/b"))
unfolding split
matching_a = inr (inl refl, inr (inr refl, inl refl))

plain_a : is_shared_filter (codes "a/+") ≡ false
unfolding is_shared_filter isolate_particle index_of
plain_a = refl

shown_a : is_hidden (b'a' ∷ codes "/b") any_b ≡ false
unfolding is_hidden
shown_a = refl

subscribe-Reached_example :
    Reached client (subscribers (subscribe new_index client any_b).0.root (b'a' ∷ codes "/b"))
subscribe-Reached_example =
    subscribe-Reached new_index client any_b b'a' (codes "/b") plain_a matching_a shown_a
