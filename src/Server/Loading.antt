-- ===== src/Server/Loading.antt =====
-- What the broker restores from a store: `loadSubscriptions`, `loadInflight` and `loadRetained` of
-- broker/server.go.
use mqtt_protocol_v.Common.{ℕ, Option, none, some, List, [], ◌∷◌, if◌then◌else◌}
use mqtt_protocol_v.Common.Equality.{bytes_instance}
use mqtt_protocol_v.Common.Map
use mqtt_protocol_v.Packets.Packet.{Packet, Subscription, no_subscription}
use mqtt_protocol_v.Session.Inflight
use mqtt_protocol_v.Topics.Index
use mqtt_protocol_v.Server.Storing.{Message, StoredSubscription, to_packet}
use mqtt_protocol_v.Server.State.{World, update_client, with_inflight}

-- the subscription of a stored one
stored_options : StoredSubscription → Subscription
stored_options sub = record no_subscription {
  filter = sub.filter;
  retain_handling = sub.retain_handling;
  qos = sub.qos;
  retain_as_published = sub.retain_as_published;
  no_local = sub.no_local;
  identifier = sub.identifier;
}

-- the subscription among those of its client, if there is one
add_to_client : Subscription → Option ℕ → World → World
add_to_client sub none w = w
add_to_client sub (some cl) w =
    update_client cl (λ c. record c { subscriptions = Map.insert sub.filter sub c.subscriptions }) w

-- `loadSubscriptions`
unfoldable load_subscriptions : List StoredSubscription → World → World
unfolding stored_options add_to_client
load_subscriptions [] w = w
load_subscriptions (sub ∷ subs) w =
    let sb = stored_options sub in
    let (topics, is_new) = Index.subscribe w.topics sub.client sb in
    let w' = record w { topics = topics } in
    load_subscriptions subs
      (if is_new then add_to_client sb (Map.lookup sub.client w'.clients) w' else w')

-- the message in the in-flight store of its client, if there is one
add_inflight : Packet → Option ℕ → World → World
add_inflight pk none w = w
add_inflight pk (some cl) w = with_inflight cl (λ i. (Inflight.set i pk).0) w

-- `loadInflight`
unfoldable pub load_inflight : List Message → World → World
unfolding add_inflight
load_inflight [] w = w
load_inflight (msg ∷ msgs) w =
    load_inflight msgs (add_inflight (to_packet msg) (Map.lookup msg.client w.clients) w)

-- `loadRetained`
unfoldable load_retained : List Message → World → World
load_retained [] w = w
load_retained (msg ∷ msgs) w =
    load_retained msgs (record w { topics = (Index.retain_message w.topics (to_packet msg)).0 })
