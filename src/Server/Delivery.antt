-- ===== src/Server/Delivery.antt =====
-- `publishToClient`, `publishRetainedToClient`, `retainMessage` and `publishToSubscribers` of
-- broker/server.go. The packet that `publishToClient` returns is left out, as no caller uses it.
pub mod Keeping
pub mod Spreading
use mqtt_protocol_v.Common.{
  ℕ, suc, ◌+◌, ◌%◌, ◌^◌, Bool, true, false, not, ◌&&◌, ◌||◌, Option, none, some, List, [], ◌∷◌,
  ◌++◌, ◌==◌, ltb, leb, length, map, if◌then◌else◌,
}
use mqtt_protocol_v.Common.Equality.{Bytes, bytes_eq, nat_eq, bytes_instance}
use mqtt_protocol_v.Common.Int.{ℤ, pos, negsuc, incr, ltb_ℤ}
use mqtt_protocol_v.Common.Map
use mqtt_protocol_v.Common.Map.{Map, has}
use mqtt_protocol_v.Packets.Codes.{
  Code, code_disconnect, err_not_authorized, err_quota_exceeded, err_pending_client_writes_exceeded,
}
use mqtt_protocol_v.Packets.Errors.{Result, ok, err}
use mqtt_protocol_v.Packets.Packet.{Packet, Subscription}
use mqtt_protocol_v.Packets.Packet.Copying.{copy}
use mqtt_protocol_v.Session.Aliases.{set_outbound}
use mqtt_protocol_v.Session.Inflight.{
  Inflight, get, set, delete, decrease_send_quota, increase_send_quota,
}
use mqtt_protocol_v.Session.PacketIds.{next_packet_id}
use mqtt_protocol_v.Topics.Filters.{is_shared_filter}
use mqtt_protocol_v.Topics.Stores.{
  Subscriptions, InlineSubscriptions, Subscribers, select_shared, merge_shared_selected,
}
use mqtt_protocol_v.Topics.Index
use mqtt_protocol_v.Topics.Scan.{subscribers}
use mqtt_protocol_v.Topics.Messages.{messages}
use mqtt_protocol_v.Server.Failures.{Failure, other, code_error}
use mqtt_protocol_v.Server.Hooks.{on_acl_check, on_select_subscribers}
use mqtt_protocol_v.Server.State.{
  Client, World, Env, Action, Event, publish_dropped, message_retained, retain_published,
  qos_publish, packet_id_exhausted, handled_inline, update_client, with_inflight, count, notify,
  ◌>>◌,
}
use mqtt_protocol_v.Server.Acks.{plus, under_way}

-- `minimum`: of the two numbers that are not zero
pub minimum : ℕ → ℕ → ℕ
minimum a b =
    if not (a == 0)
    then (if not (b == 0) && ltb b a then b else a)
    else if not (b == 0)
    then b
    else 0

-- `sort.Ints`
pub place : ℕ → List ℕ → List ℕ
place n [] = n ∷ []
place n (m ∷ ms) = let rest = place n ms in if leb n m then n ∷ m ∷ ms else m ∷ rest

pub sort_ints : List ℕ → List ℕ
sort_ints [] = []
sort_ints (n ∷ ns) = place n (sort_ints ns)

-- the identifiers of a subscription, for the packet
unfoldable pub identifiers : Option (Map Bytes ℕ) → List ℕ → List ℕ
identifiers none kept = kept
identifiers (some []) kept = kept
identifiers (some (e ∷ ids)) kept = sort_ints (map (λ e. e.1) (e ∷ ids))

abbrev at_most : ℕ → ℕ → ℕ
at_most bound qos = if ltb bound qos then bound else qos

-- whether the retain flag is kept
pub keeps_retain : Client → Subscription → Bool
keeps_retain c sub =
    sub.fwd_retained_flag
    || not ((c.protocol_version == 5 && not sub.retain_as_published) || ltb c.protocol_version 5)

-- the copy of a message for a subscription, up to its topic alias
pub shaped : Env → Client → Subscription → Packet → Packet
shaped env c sub pk =
    let out = copy pk false in
    record out {
      fixed_header = record out.fixed_header {
        retain = if keeps_retain c sub then out.fixed_header.retain else false;
        qos = at_most env.capabilities.maximum_qos (at_most sub.qos out.fixed_header.qos);
      };
      properties = record out.properties {
        subscription_identifier =
            identifiers sub.identifiers out.properties.subscription_identifier;
      };
    }

-- the alias of a topic on a packet
pub aliased : ℕ × Bool → Packet → Packet
aliased (alias, exists) out = record out {
  topic_name = if ltb 0 alias && exists then [] else out.topic_name;
  properties = record out.properties {
    topic_alias = alias;
    topic_alias_flag = if ltb 0 alias then true else out.properties.topic_alias_flag;
  };
}

-- the topic alias, where the client takes aliases
pub with_alias : ℕ → Bytes → Packet → World → Packet × World
with_alias cl topic out w =
    let (aliases, answer) = set_outbound (w.heap cl).outbound_aliases topic in
    if ltb 0 (w.heap cl).props.topic_alias_maximum
    then (aliased answer out, update_client cl (λ c. record c { outbound_aliases = aliases }) w)
    else (out, w)

-- the queue of the client's connection
pub queue_out : Env → ℕ → Packet → Packet → Action
queue_out env cl pk out w =
    if not (w.heap cl).has_conn || not (w.heap cl).is_open
    then (code_error code_disconnect, w)
    else if ltb (length (w.heap cl).outbound) env.capabilities.maximum_client_writes_pending
    then (
      none,
      update_client cl
          (λ c. record c { outbound = c.outbound ++ (out ∷ []); outbound_qty = c.outbound_qty + 1 })
          w,
    )
    else (
      code_error err_pending_client_writes_exceeded,
      let dropped =
            notify (publish_dropped cl pk)
              (count (λ i. record i { messages_dropped = i.messages_dropped + 1 }) w) in
          if ltb 0 out.fixed_header.qos
          then with_inflight cl (λ i. increase_send_quota (delete i out.packet_id).0) dropped
          else dropped,
    )

-- a message under its new id: whether it is new to the store, the counter and the quota
pub take_id : ℕ → Packet → World → World
take_id cl out w =
    let stored = with_inflight cl (λ i. (set i out).0) w in
    if under_way w cl out.packet_id
    then stored
    else with_inflight cl decrease_send_quota
        (notify (qos_publish cl out) (count (λ i. record i { inflight = incr i.inflight }) stored))

-- the client that `NextPacketID` leaves
abbrev pub with_id : ℕ → ℕ → World → World
with_id cl n w = update_client cl (λ c. record c { packet_id = n }) w

abbrev count_inflight_dropped : World → World
count_inflight_dropped w = count (λ i. record i { inflight_dropped = i.inflight_dropped + 1 }) w

-- A message with a packet id of its own. Where the client has no send quota left, it stays in the
-- store, marked by an expiry of -1.
pub send_with_id : Env → ℕ → Packet → Packet → ℕ → Action
send_with_id env cl pk out n w =
    let out' = record out { packet_id = n % 2 ^ 16 } in
    let quota = (w.heap cl).inflight.send_quota in
    let w' = take_id cl out' (with_id cl n w) in
    if quota == 0 && ltb 0 (w'.heap cl).inflight.maximum_send_quota
    then (none, with_inflight cl (λ i. (set i (record out' { expiry = negsuc 0 })).0) w')
    else queue_out env cl pk out' w'

-- The packet id that was found. The search always ends (`next_packet_id` has enough fuel).
pub by_next_id : Env → ℕ → Packet → Packet → Option (Result ℕ) → Action
by_next_id env cl pk out none w = (some (other 0), w)
by_next_id env cl pk out (some (err e)) w =
    (code_error err_quota_exceeded, count_inflight_dropped (notify (packet_id_exhausted cl pk) w))
by_next_id env cl pk out (some (ok n)) w = send_with_id env cl pk out n w

-- the part for a message of QoS 1 or 2, and the queue
pub send : Env → ℕ → Packet → Packet → Action
send env cl pk out w =
    let c = w.heap cl in
    if ltb 0 out.fixed_header.qos
    then (if leb env.capabilities.maximum_inflight (length c.inflight.internal)
        then (code_error err_quota_exceeded, count_inflight_dropped w)
        else by_next_id env cl pk out
            (next_packet_id c.inflight env.capabilities.maximum_packet_id c.packet_id) w)
    else queue_out env cl pk out w

-- `publishToClient`
pub publish_to_client : Env → ℕ → Subscription → Packet → Action
publish_to_client env cl sub pk w =
    let c = w.heap cl in
    if sub.no_local && bytes_eq pk.origin c.id
    then (none, w)
    else if not (on_acl_check env.hooks (w, cl) pk.topic_name false)
    then (code_error err_not_authorized, w)
    else (let (out, w') = with_alias cl pk.topic_name (shaped env c sub pk) w in
        send env cl pk out w')

-- what follows on the publication of a retained message
pub heard : ℕ → Packet → Option Failure × World → World
heard cl pkv (none, w) = notify (retain_published cl pkv) w
heard cl pkv (some failed, w) = w

-- the loop over the retained messages
pub retained_loop : Env → ℕ → Subscription → List Packet → World → World
retained_loop env cl sub [] w = w
retained_loop env cl sub (pkv ∷ pks) w =
    retained_loop env cl sub pks (heard cl pkv (publish_to_client env cl sub pkv w))

-- `publishRetainedToClient`
pub publish_retained_to_client : Env → ℕ → Subscription → Bool → World → World
publish_retained_to_client env cl sub existed w =
    if is_shared_filter sub.filter
    then w
    else if (sub.retain_handling == 1 && existed) || sub.retain_handling == 2
    then w
    else retained_loop env cl (record sub { fwd_retained_flag = true })
        (messages w.topics sub.filter) w

-- `retainMessage`
unfoldable pub retain : Env → ℕ → Packet → World → World
retain env cl pk w =
    let (topics, r) = Index.retain_message w.topics (copy pk false) in
    if env.capabilities.retain_available == 0 || pk.ignore
    then w
    else count (λ i. record i { retained = length topics.retained })
        (notify (message_retained cl pk r) (record w { topics = topics }))

-- the expiry of a message that is accepted at a time
pub expiry_of : Env → Packet → ℤ → ℤ
expiry_of env pk created =
    let expiry =
      minimum env.capabilities.maximum_message_expiry_interval
        pk.properties.message_expiry_interval in
    if ltb 0 expiry then plus created (pos expiry) else pk.expiry

pub is_zero : ℤ → Bool
is_zero (pos n) = n == 0
is_zero (negsuc n) = false

-- the packet that `publishToSubscribers` sends, with its time and expiry
pub dated : Env → ℤ → Packet → Packet
dated env now pk =
    let created = if is_zero pk.created then now else pk.created in
    record pk {
      created = created;
      expiry = if is_zero pk.expiry then expiry_of env pk created else pk.expiry;
    }

-- the subscribers of a message, with one of each shared group
pub chosen : Env → World → Packet → Subscribers
chosen env w pk =
    let found = subscribers w.topics.root pk.topic_name in
    let asked = on_select_subscribers env.hooks w found pk in
    if ltb 0 (length found.shared)
    then merge_shared_selected
        (if length asked.shared_selected == 0 then select_shared asked else asked)
    else found

-- the loops over the inline subscriptions and over the clients
pub handle_inline : InlineSubscriptions → Packet → World → World
handle_inline [] pk w = w
handle_inline ((id, sub) ∷ subs) pk w = handle_inline subs pk (notify (handled_inline sub pk) w)

-- what goes to the client of an identifier, if there is one
pub send_to : Env → Subscription → Packet → Option ℕ → World → World
send_to env sub pk none w = w
send_to env sub pk (some cl) w = (publish_to_client env cl sub pk w).1

pub send_to_clients : Env → Subscriptions → Packet → World → World
send_to_clients env [] pk w = w
send_to_clients env ((id, sub) ∷ subs) pk w =
    send_to_clients env subs pk (send_to env sub pk (Map.lookup id w.clients) w)

-- `publishToSubscribers`
pub publish_to_subscribers : Env → Packet → World → World
publish_to_subscribers env pk w =
    let pk' = dated env w.now pk in
    let subs = chosen env w pk' in
    if pk.ignore
    then w
    else send_to_clients env subs.subscriptions pk' (handle_inline subs.inline pk' w)
