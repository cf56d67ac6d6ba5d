-- ===== src/Topics/Index/Delivery.antt =====
-- From a subscription to the delivery of what is published under it.
use mqtt_protocol_v.Common.{ℕ, ◌≡◌, refl, ap, ◌∙◌, false, some, [], ◌∷◌, Bool-cases, inl, inr}
use mqtt_protocol_v.Common.Equality.{Bytes, bytes_eq, bytes_eq_iff, bytes_instance}
use mqtt_protocol_v.Common.Map
use mqtt_protocol_v.Common.Map.{lookup}
use mqtt_protocol_v.Common.Split.{split}
use mqtt_protocol_v.Packets.Packet.{Subscription}
use mqtt_protocol_v.Topics.Levels.Splitting.{levels_whole}
use mqtt_protocol_v.Topics.Filters.{is_shared_filter}
use mqtt_protocol_v.Topics.Stores.{Subscriptions}
use mqtt_protocol_v.Topics.Tree.{node_at}
use mqtt_protocol_v.Topics.Index.{TopicsIndex, subscribe}
use mqtt_protocol_v.Topics.Index.Address.{address, held, same_address_refl}
use mqtt_protocol_v.Topics.Index.Updates.{held-subscribe}
use mqtt_protocol_v.Topics.Scan.{is_hidden, subscribers}
use mqtt_protocol_v.Topics.Scan.Gathered.{Holds, Reached}
use mqtt_protocol_v.Topics.Scan.Covering.{Covers, subscribers-Covers}

lookup-Holds :
    (topic c : Bytes) (sub : Subscription) (m : Subscriptions)
    → Map.lookup c m ≡ some sub
    → is_hidden topic sub ≡ false
    → Holds topic c m
unfolding lookup
lookup-Holds topic c sub [] found shown = cc
lookup-Holds topic c sub ((client, other) ∷ m) found shown = elim (Bool-cases (bytes_eq client c)) [
  | inl same ↦
      let is : other ≡ sub = cc (rw same at found) in
      inl ((bytes_eq_iff client c).0 same, ap (is_hidden topic) is ∙ shown)
  | inr apart ↦ inr (lookup-Holds topic c sub m (rw apart at found) shown)
]

-- Right after `Subscribe`, `Subscribers` finds the client for every topic whose levels the filter's
-- levels cover, where the filter is not a shared one and is not hidden from the topic.
pub subscribe-Reached :
    (x : TopicsIndex) (client : Bytes) (sub : Subscription) (b : ℕ) (rest : Bytes)
    → is_shared_filter sub.filter ≡ false
    → Covers (split b'/' sub.filter) (split b'/' (b ∷ rest))
    → is_hidden (b ∷ rest) sub ≡ false
    → Reached client (subscribers (subscribe x client sub).0.root (b ∷ rest))
subscribe-Reached x client sub b rest plain covers shown =
    let x' = (subscribe x client sub).0 in
    let now : held x' (address sub.filter) client ≡ some sub =
      (held-subscribe x client sub (address sub.filter) client).0
      ∙ rw (same_address_refl (address sub.filter), (bytes_eq_iff client client).1 refl) refl in
    let stored : Map.lookup client (node_at (split b'/' sub.filter) x'.root).subscriptions
        ≡ some sub =
      rw (← levels_whole sub.filter) (rw plain at now) in
    (subscribers-Covers x'.root b rest client).1
      (split b'/' sub.filter, covers, lookup-Holds (b ∷ rest) client sub _ stored shown)
