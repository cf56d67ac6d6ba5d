-- ===== src/Server/Sessions.antt =====
-- The session that a client takes over, and what is resent or expires: `inheritClientSession` and the
-- clearing functions of broker/server.go, and those of broker/clients.go that they call.
pub mod Inheriting
pub mod Takeover
use mqtt_protocol_v.Common.{
  ℕ, ◌+◌, Bool, true, false, not, ◌&&◌, ◌||◌, Option, none, some, List, [], ◌∷◌, ◌==◌, ltb, length,
  if◌then◌else◌,
}
use mqtt_protocol_v.Common.Equality.{Bytes, nat_eq, bytes_instance}
use mqtt_protocol_v.Common.Int.{ℤ, pos, ltb_ℤ, incr}
use mqtt_protocol_v.Common.Map
use mqtt_protocol_v.Common.Map.{Map}
use mqtt_protocol_v.Packets.Types
use mqtt_protocol_v.Packets.Codes.{err_session_taken_over}
use mqtt_protocol_v.Packets.Packet.{Packet, Subscription, no_packet}
use mqtt_protocol_v.Session.Inflight.{Inflight, reset_receive_quota, reset_send_quota}
use mqtt_protocol_v.Session.Inflight.Listing.{clone, get_all}
use mqtt_protocol_v.Topics.Index
use mqtt_protocol_v.Server.State.{
  Client, World, Env, Action, qos_publish, qos_dropped, client_expired, retained_expired,
  update_client, with_inflight, count, notify, ◌>>◌,
}
use mqtt_protocol_v.Server.Writing.{write_packet, disconnect_client, minus}
use mqtt_protocol_v.Server.Acks.{under_way, drop_inflight, complete}
use mqtt_protocol_v.Server.Delivery.{is_zero}
use mqtt_protocol_v.Server.Subscribing.{unsubscribe_client}

-- a message as it is sent again
pub resent : Packet → Packet
resent tk =
    if tk.fixed_header.packet_type == Types.publish
    then record tk { fixed_header = record tk.fixed_header { dup = true } }
    else tk

-- the loop of `ResendInflightMessages`
pub resend_all : Env → ℕ → List Packet → Action
resend_all env cl [] w = (none, w)
resend_all env cl (tk ∷ tks) w =
    let out = resent tk in
    let ends =
      tk.fixed_header.packet_type == Types.puback || tk.fixed_header.packet_type == Types.pubcomp in
    write_packet env cl out (notify (qos_publish cl out) w) >> λ w'.
    resend_all env cl tks (if ends then complete cl out w' else w')

-- `ResendInflightMessages`
pub resend_inflight_messages : Env → ℕ → Action
resend_inflight_messages env cl w = resend_all env cl (get_all (w.heap cl).inflight false) w

-- `Inflight.Delete`, `OnQosDropped` and the counter
pub discard : ℕ → Packet → World → World
discard cl tk w =
    let gone = drop_inflight cl tk.packet_id w in
    if under_way w cl tk.packet_id then notify (qos_dropped cl tk) gone else gone

-- the loop of `ClearInflights`
pub discard_all : ℕ → List Packet → World → World
discard_all cl [] w = w
discard_all cl (tk ∷ tks) w = discard_all cl tks (discard cl tk w)

-- `ClearInflights`
pub clear_inflights : ℕ → World → World
clear_inflights cl w = discard_all cl (get_all (w.heap cl).inflight false) w

-- whether a message has expired, or has been kept for too long
pub is_expired : ℤ → ℕ → Packet → Bool
is_expired now maximum_expiry tk =
    (tk.protocol_version == 5 && (ltb_ℤ (pos 0) tk.expiry && ltb_ℤ tk.expiry now))
    || (ltb 0 maximum_expiry && ltb_ℤ (pos maximum_expiry) (minus now tk.created))

-- the loop of `ClearExpiredInflights`: the ids of the messages that are gone
pub discard_expired : ℕ → ℤ → ℕ → List Packet → World → List ℕ × World
discard_expired cl now maximum_expiry [] w = ([], w)
discard_expired cl now maximum_expiry (tk ∷ tks) w =
    let (kept, same) = discard_expired cl now maximum_expiry tks w in
    let (deleted, after) = discard_expired cl now maximum_expiry tks (discard cl tk w) in
    if is_expired now maximum_expiry tk
    then (if under_way w cl tk.packet_id then tk.packet_id ∷ deleted else deleted, after)
    else (kept, same)

-- `ClearExpiredInflights`
pub clear_expired_of : ℕ → ℤ → ℕ → World → List ℕ × World
clear_expired_of cl now maximum_expiry w =
    discard_expired cl now maximum_expiry (get_all (w.heap cl).inflight false) w

-- the call of `OnQosDropped` for each id
pub tell_dropped : ℕ → List ℕ → World → World
tell_dropped cl [] w = w
tell_dropped cl (id ∷ ids) w =
    tell_dropped cl ids (notify (qos_dropped cl (record no_packet { packet_id = id })) w)

-- `clearExpiredInflights`
pub clear_each : Env → ℤ → Map Bytes ℕ → World → World
clear_each env now [] w = w
clear_each env now ((id, cl) ∷ clients) w =
    let (deleted, w') =
      clear_expired_of cl now env.capabilities.maximum_message_expiry_interval w in
    clear_each env now clients (tell_dropped cl deleted w')

pub clear_expired_inflights : Env → ℤ → World → World
clear_expired_inflights env now w = clear_each env now w.clients w

-- `clearExpiredRetainedMessages`
pub clear_retained : Env → ℤ → Map Bytes Packet → World → World
clear_retained env now [] w = w
clear_retained env now ((filter, pk) ∷ retained) w = clear_retained env now retained (
    if is_expired now env.capabilities.maximum_message_expiry_interval pk
    then notify (retained_expired filter)
        (record w { topics = record w.topics { retained = Map.delete filter w.topics.retained } })
    else w)

pub clear_expired_retained : Env → ℤ → World → World
clear_expired_retained env now w = clear_retained env now w.topics.retained w

-- whether a client has been away for longer than its session lasts
pub has_lapsed : Env → ℤ → Client → Bool
has_lapsed env dt c =
    let expire =
      if c.protocol_version == 5 && c.props.session_expiry_interval_flag
      then c.props.session_expiry_interval
      else env.capabilities.maximum_session_expiry_interval in
    not (is_zero c.disconnected) && ltb_ℤ (pos expire) (minus dt c.disconnected)

-- `clearExpiredClients`
pub clear_clients : Env → ℤ → Map Bytes ℕ → World → World
clear_clients env dt [] w = w
clear_clients env dt ((id, cl) ∷ clients) w = clear_clients env dt clients (
    if has_lapsed env dt (w.heap cl)
    then record (notify (client_expired cl) w) { clients = Map.delete id w.clients }
    else w)

pub clear_expired_clients : Env → ℤ → World → World
clear_expired_clients env dt w = clear_clients env dt w.clients w

-- The messages of the session that is taken over; a store without quotas gets those of the
-- connection.
pub inherit_inflight : Env → ℕ → Inflight → World → World
inherit_inflight env cl existing w =
    let fresh = clone existing in
    let quota = env.capabilities.receive_maximum in
    if ltb 0 (length existing.internal)
    then with_inflight cl
        (λ i.
          if fresh.maximum_receive_quota == 0 && not (quota == 0)
          then reset_send_quota (reset_receive_quota fresh quota) (w.heap cl).props.receive_maximum
          else fresh)
        w
    else w

-- a subscription of the session that is taken over
pub inherit_subscription : ℕ → Subscription → World → World
inherit_subscription cl sub w =
    let (topics, is_new) = Index.subscribe w.topics (w.heap cl).id sub in
    let indexed = record w { topics = topics } in
    update_client cl (λ c. record c { subscriptions = Map.insert sub.filter sub c.subscriptions })
      (if is_new
        then count (λ i. record i { subscriptions = incr i.subscriptions }) indexed
        else indexed)

pub inherit_all : ℕ → Map Bytes Subscription → World → World
inherit_all cl [] w = w
inherit_all cl ((filter, sub) ∷ subs) w = inherit_all cl subs (inherit_subscription cl sub w)

abbrev pub take_over : ℕ → World → World
take_over existing w = update_client existing (λ c. record c { taken_over = true }) w

-- the session of the old connection, for a client that keeps it
pub carry : Env → ℕ → ℕ → World → World
carry env cl existing w =
    let old = w.heap existing in
    clear_inflights existing (
      unsubscribe_client existing (
        inherit_all cl old.subscriptions
          (inherit_inflight env cl old.inflight (take_over existing w))))

-- whether the session of the old connection is dropped
abbrev pub starts_afresh : Packet → Client → Bool
starts_afresh pk old = pk.connect.clean || (old.clean && ltb old.protocol_version 5)

-- the session of a client that is known
pub inherit_from : Env → Packet → ℕ → ℕ → World → Bool × World
inherit_from env pk cl existing w =
    let w' = (disconnect_client env existing err_session_taken_over w).1 in
    if starts_afresh pk (w'.heap existing)
    then (false, take_over existing (clear_inflights existing (unsubscribe_client existing w')))
    else (true, carry env cl existing w')

-- a connection without a session before it
pub count_maximum : World → World
count_maximum w =
    if ltb w.info.clients_maximum w.info.clients_connected
    then count (λ i. record i { clients_maximum = i.clients_maximum + 1 }) w
    else w

pub by_existing : Env → Packet → ℕ → Option ℕ → World → Bool × World
by_existing env pk cl none w = (false, count_maximum w)
by_existing env pk cl (some existing) w = inherit_from env pk cl existing w

-- `inheritClientSession`
pub inherit_client_session : Env → Packet → ℕ → World → Bool × World
inherit_client_session env pk cl w = by_existing env pk cl (Map.lookup (w.heap cl).id w.clients) w
