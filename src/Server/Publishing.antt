-- ===== src/Server/Publishing.antt =====
-- `processPublish` of broker/server.go.
pub mod Once
use mqtt_protocol_v.Common.{
  ℕ, Bool, true, false, not, ◌&&◌, ◌||◌, Option, none, some, ◌==◌, ltb, if◌then◌else◌,
}
use mqtt_protocol_v.Common.Int.{ℤ, incr}
use mqtt_protocol_v.Packets.Types
use mqtt_protocol_v.Packets.Codes.{
  Code, code_success, qos_codes, err_receive_maximum, err_not_authorized,
  err_packet_identifier_in_use,
}
use mqtt_protocol_v.Packets.Errors.{coded}
use mqtt_protocol_v.Packets.Packet.{Packet}
use mqtt_protocol_v.Session.Aliases.{set_inbound}
use mqtt_protocol_v.Session.Inflight.{
  Inflight, get, set, decrease_receive_quota, increase_receive_quota,
}
use mqtt_protocol_v.Topics.Filters.{is_valid_filter}
use mqtt_protocol_v.Server.Failures.{Failure, codec, is_reject, is_ignore}
use mqtt_protocol_v.Server.Hooks.{on_acl_check, on_publish}
use mqtt_protocol_v.Server.State.{
  World, Env, Action, Event, published, qos_publish, qos_complete, update_client, with_inflight,
  count, notify, ◌>>◌,
}
use mqtt_protocol_v.Server.Writing.{write_packet, disconnect_client}
use mqtt_protocol_v.Server.Acks.{build_ack, drop_inflight, under_way}
use mqtt_protocol_v.Server.Delivery.{expiry_of, retain, publish_to_subscribers}

-- the answer to a message that the client may not publish
unfoldable pub refuse : Env → ℕ → Packet → Action
refuse env cl pk w =
    if pk.fixed_header.qos == 0
    then (none, w)
    else if not ((w.heap cl).protocol_version == 5)
    then disconnect_client env cl err_not_authorized w
    else write_packet env cl
        (build_ack env w.now pk.packet_id
          (if pk.fixed_header.qos == 2 then Types.pubrec else Types.puback) 0 pk.properties
          err_not_authorized)
        w

-- the publication and what the hooks hear of it
unfoldable pub publish_out : Env → ℕ → Packet → Action
publish_out env cl pk w = (none, notify (published cl pk) (publish_to_subscribers env pk w))

-- `QosCodes[qos]`; the zero `Code` of a missing key has the byte of `CodeSuccess`
pub qos_code : Option Code → Code
qos_code none = code_success
qos_code (some c) = c

-- the acknowledgement of a message of QoS 1 or 2
pub first_ack : Env → ℤ → Packet → Packet
first_ack env now pk =
    if pk.fixed_header.qos == 2
    then build_ack env now pk.packet_id Types.pubrec 0 pk.properties code_success
    else build_ack env now pk.packet_id Types.puback 0 pk.properties
        (qos_code (qos_codes pk.fixed_header.qos))

-- the store of the acknowledgement, its counter and its hook
unfoldable pub store_ack : ℕ → Packet → World → World
store_ack cl ack w =
    let stored = with_inflight cl (λ i. (set i ack).0) w in
    if under_way w cl ack.packet_id
    then stored
    else notify (qos_publish cl ack) (count (λ i. record i { inflight = incr i.inflight }) stored)

-- the end of the flow of QoS 1
unfoldable pub end_qos1 : ℕ → Packet → Packet → World → World
end_qos1 cl pk ack w =
    if pk.fixed_header.qos == 1
    then notify (qos_complete cl ack)
        (with_inflight cl increase_receive_quota (drop_inflight cl ack.packet_id w))
    else w

-- what follows for a message of QoS 1 or 2
unfoldable pub acknowledge : Env → ℕ → Packet → Action
acknowledge env cl pk w =
    let ack = first_ack env w.now pk in
    write_packet env cl ack (store_ack cl ack (with_inflight cl decrease_receive_quota w)) >> λ w'.
    publish_out env cl pk (end_qos1 cl pk ack w')

-- the message that the hooks let through
unfoldable pub pass_on : Env → ℕ → Packet → Action
pass_on env cl pk w =
    let w' = if pk.fixed_header.retain then retain env cl pk w else w in
    if pk.fixed_header.qos == 0 || (w.heap cl).inline
    then publish_out env cl pk w'
    else acknowledge env cl pk w'

-- an error that is no `Code` comes to nothing
unfoldable pub refused_code : Env → ℕ → Packet → Failure → Action
refused_code env cl pk (codec (coded code)) w =
    if (w.heap cl).protocol_version == 5 && ltb 0 pk.fixed_header.qos
    then write_packet env cl (build_ack env w.now pk.packet_id Types.puback 0 pk.properties code) w
    else pass_on env cl pk w
refused_code env cl pk failure w = pass_on env cl pk w

-- the answer of the hooks
unfoldable pub by_hooks : Env → ℕ → Packet → Packet × Option Failure → Action
by_hooks env cl pk (pkx, none) w = pass_on env cl pkx w
by_hooks env cl pk (pkx, some e) w =
    if is_reject e
    then (none, w)
    else if is_ignore e
    then pass_on env cl (record pk { ignore = true }) w
    else refused_code env cl pk e w

-- the topic alias of the message, the bound on its QoS, and the hooks
unfoldable pub accept : Env → ℕ → Packet → Action
accept env cl pk w =
    let uses = pk.properties.topic_alias_flag && ltb 0 pk.properties.topic_alias in
    let (aliases, topic) =
      set_inbound (w.heap cl).inbound pk.properties.topic_alias pk.topic_name in
    let w' = if uses then update_client cl (λ c. record c { inbound = aliases }) w else w in
    let most = env.capabilities.maximum_qos in
    let pk' = record pk {
      topic_name = if uses then topic else pk.topic_name;
      fixed_header = record pk.fixed_header {
        qos = if ltb most pk.fixed_header.qos then most else pk.fixed_header.qos;
      };
    } in
    by_hooks env cl pk' (on_publish env.hooks (w', cl) pk') w'

-- what is under way with the id of the message
unfoldable pub by_inflight : Env → ℕ → Packet → Option Packet → Action
by_inflight env cl pk none w = accept env cl pk w
by_inflight env cl pk (some pki) w =
    if pki.fixed_header.packet_type == Types.pubrec
    then write_packet env cl
        (build_ack env w.now pk.packet_id Types.pubrec 0 pk.properties err_packet_identifier_in_use)
        w
    else accept env cl pk (drop_inflight cl pk.packet_id w)

-- the origin, time and expiry of a message
pub stamped : Env → World → ℕ → Packet → Packet
stamped env w cl pk = record pk {
  origin = (w.heap cl).id;
  created = w.now;
  expiry = expiry_of env pk w.now;
}

-- `processPublish`
unfoldable pub process_publish : Env → ℕ → Packet → Action
process_publish env cl pk w =
    let c = w.heap cl in
    if not c.inline && not (is_valid_filter pk.topic_name true)
    then (none, w)
    else if c.inflight.receive_quota == 0
    then disconnect_client env cl err_receive_maximum w
    else if not c.inline && not (on_acl_check env.hooks (w, cl) pk.topic_name true)
    then refuse env cl pk w
    else by_inflight env cl (stamped env w cl pk)
        (if c.inline then none else get c.inflight pk.packet_id) w
