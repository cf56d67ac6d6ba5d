-- ===== src/Server/Acks.antt =====
-- `buildAck` and the handlers of acknowledgements of broker/server.go.
use mqtt_protocol_v.Common.{ℕ, ◌+◌, Bool, not, ◌||◌, none, if◌then◌else◌}
use mqtt_protocol_v.Common.Int.{ℤ, pos, sub_ℕ, pos_part, neg_part, decr}
use mqtt_protocol_v.Common.Map.{has}
use mqtt_protocol_v.Packets.Types
use mqtt_protocol_v.Packets.FixedHeader.{blank}
use mqtt_protocol_v.Packets.Codes.{Code, code_byte, code_success, err_packet_identifier_not_found}
use mqtt_protocol_v.Packets.Packet.{Packet, no_packet}
use mqtt_protocol_v.Packets.Packet.Acks.{reason_code_valid}
use mqtt_protocol_v.Packets.Properties.{Properties, no_properties}
use mqtt_protocol_v.Session.Inflight.{
  get, set, delete, decrease_receive_quota, increase_receive_quota, increase_send_quota,
}
use mqtt_protocol_v.Server.Failures.{is_failure}
use mqtt_protocol_v.Server.State.{
  World, Env, Action, qos_complete, qos_dropped, with_inflight, count, notify, ◌>>◌,
}
use mqtt_protocol_v.Server.Writing.{write_packet, reason_of}

abbrev pub plus : ℤ → ℤ → ℤ
plus a b = sub_ℕ (pos_part a + pos_part b) (neg_part a + neg_part b)

-- the properties that an acknowledgement takes over
pub inherited : Env → Properties → Code → Properties
inherited env properties code =
    let kept =
      if env.capabilities.no_inherited_properties_on_ack then no_properties else properties in
    record kept { reason_string = reason_of code kept.reason_string }

-- `buildAck`
unfoldable pub build_ack : Env → ℤ → ℕ → ℕ → ℕ → Properties → Code → Packet
build_ack env now packet_id pkt qos properties code = record no_packet {
  fixed_header = record blank { packet_type = pkt; qos = qos };
  packet_id = packet_id;
  reason_code = code_byte code;
  properties = inherited env properties code;
  created = now;
  expiry = plus now (pos env.capabilities.maximum_message_expiry_interval);
}

-- whether an id is under way
abbrev pub under_way : World → ℕ → ℕ → Bool
under_way w cl id = has (get (w.heap cl).inflight id)

-- `Inflight.Delete` of a client and, where the message was there, the counter
unfoldable pub drop_inflight : ℕ → ℕ → World → World
drop_inflight cl id w =
    let gone = with_inflight cl (λ i. (delete i id).0) w in
    if under_way w cl id then count (λ i. record i { inflight = decr i.inflight }) gone else gone

-- `Inflight.Delete`, the counter, and `OnQosComplete`
unfoldable pub complete : ℕ → Packet → World → World
complete cl pk w =
    let gone = drop_inflight cl pk.packet_id w in
    if under_way w cl pk.packet_id then notify (qos_complete cl pk) gone else gone

-- an acknowledgement that says that the flow has failed
abbrev pub is_refusal : Packet → Bool
is_refusal pk = is_failure pk.reason_code || not (reason_code_valid pk)

-- `processPuback`
unfoldable pub process_puback : ℕ → Packet → Action
process_puback cl pk w =
    if under_way w cl pk.packet_id
    then (none, complete cl pk (with_inflight cl increase_send_quota w))
    else (none, w)

-- `processPubrec`
unfoldable pub process_pubrec : Env → ℕ → Packet → Action
process_pubrec env cl pk w =
    let ack = build_ack env w.now pk.packet_id Types.pubrel 1 pk.properties in
    if not (under_way w cl pk.packet_id)
    then write_packet env cl (ack err_packet_identifier_not_found) w
    else if is_refusal pk
    then (none, notify (qos_dropped cl pk) (drop_inflight cl pk.packet_id w))
    else write_packet env cl (ack code_success)
        (with_inflight cl (λ i. (set (decrease_receive_quota i) (ack code_success)).0) w)

-- the end of `processPubrel`
unfoldable pub end_flow : ℕ → Packet → Action
end_flow cl pk w = (
  none,
  complete cl pk (with_inflight cl (λ i. increase_send_quota (increase_receive_quota i)) w),
)

-- `processPubrel`
unfoldable pub process_pubrel : Env → ℕ → Packet → Action
process_pubrel env cl pk w =
    let ack = build_ack env w.now pk.packet_id Types.pubcomp 0 pk.properties in
    if not (under_way w cl pk.packet_id)
    then write_packet env cl (ack err_packet_identifier_not_found) w
    else if is_refusal pk
    then (none, notify (qos_dropped cl pk) (drop_inflight cl pk.packet_id w))
    else write_packet env cl (ack code_success)
        (with_inflight cl (λ i. (set i (ack code_success)).0) w)
      >> end_flow cl pk

-- `processPubcomp`
unfoldable pub process_pubcomp : ℕ → Packet → Action
process_pubcomp cl pk w = end_flow cl pk w
