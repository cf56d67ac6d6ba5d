-- ===== src/Packets/Packet/Publish.antt =====
-- `PublishEncode`, `PublishDecode` and `PublishValidate`.
pub mod RoundTrip
use mqtt_protocol_v.Common.{
  ℕ, zero, suc, ◌+◌, ◌*◌, ◌/◌, ◌%◌, ◌^◌, bit_and, bit_or, Bool, true, false, not, ◌&&◌, ◌||◌,
  Option, none, some, List, [], ◌∷◌, ◌++◌, ltb, leb, ◌==◌, length, drop, get_or, if◌then◌else◌,
}
use mqtt_protocol_v.Common.Equality.{Bytes, bytes_eq, codes}
use mqtt_protocol_v.Packets.Errors.{Error, coded, index_panic, Result, ok, err, ◌>>=◌}
use mqtt_protocol_v.Packets.Codec.{
  decode_byte, decode_byte_bool, decode_uint16, decode_string, decode_bytes, encode_bool,
  encode_uint16, encode_string, encode_bytes,
}
use mqtt_protocol_v.Packets.FixedHeader.{FixedHeader}
use mqtt_protocol_v.Packets.Packet.{Packet, ConnectParams, Subscription, no_subscription, no_packet}
use mqtt_protocol_v.Packets.Packet.Body.{
  wrap, finished, read_properties, read_v5, written_v5, framed,
}
use mqtt_protocol_v.Packets.Types
use mqtt_protocol_v.Common.Split.{contains}
use mqtt_protocol_v.Packets.Codes.{
  Code, code_success, err_protocol_violation_no_packet_id, err_malformed_topic,
  err_malformed_packet_id, err_malformed_properties, err_protocol_violation_surplus_packet_id,
  err_protocol_violation_surplus_wildcard, err_topic_alias_invalid, err_protocol_violation_no_topic,
  err_protocol_violation_surplus_sub_id,
}

-- the topic and the packet identifier
publish_head : Packet → Bytes
publish_head pk =
    encode_string pk.topic_name
    ++ (if ltb 0 pk.fixed_header.qos then encode_uint16 pk.packet_id else [])

-- what follows the fixed header, where the packet has the identifier that it needs
unfoldable pub publish_body : Packet → Bytes
unfolding publish_head
publish_body pk =
    publish_head pk ++ written_v5 pk (length (publish_head pk) + length pk.payload) ++ pk.payload

-- `PublishEncode`
unfoldable pub publish_encode : Packet → Result Bytes
unfolding publish_body
publish_encode pk =
    if ltb 0 pk.fixed_header.qos && pk.packet_id == 0
    then err (coded err_protocol_violation_no_packet_id)
    else ok (framed pk (publish_body pk))

-- the packet identifier, which only a qos above 0 brings
publish_id : Packet → Bytes → ℕ → Result (Packet × ℕ)
publish_id pk buf offset =
    if ltb 0 pk.fixed_header.qos
    then (wrap err_malformed_packet_id (decode_uint16 buf offset) >>= λ (id, next).
        ok (record pk { packet_id = id }, next))
    else ok (pk, offset)

-- `PublishDecode`
unfoldable pub publish_decode : Packet → Bytes → Result Packet
unfolding publish_id
publish_decode pk buf = wrap err_malformed_topic (decode_string buf 0) >>= λ (topic, at_id).
    publish_id (record pk { topic_name = topic }) buf at_id >>= λ (q, at_properties).
    read_v5 q err_malformed_properties buf at_properties >>= λ (r, at_payload).
    ok (record r { payload = drop at_payload buf })

-- `PublishValidate`
unfoldable pub publish_validate : Packet → ℕ → Code
publish_validate pk topic_alias_maximum =
    if ltb 0 pk.fixed_header.qos && pk.packet_id == 0
    then err_protocol_violation_no_packet_id
    else if pk.fixed_header.qos == 0 && ltb 0 pk.packet_id
    then err_protocol_violation_surplus_packet_id
    else if contains b'+' pk.topic_name || contains b'#' pk.topic_name
    then err_protocol_violation_surplus_wildcard
    else if ltb topic_alias_maximum pk.properties.topic_alias
    then err_topic_alias_invalid
    else if bytes_eq pk.topic_name [] && pk.properties.topic_alias == 0
    then err_protocol_violation_no_topic
    else if pk.properties.topic_alias_flag && pk.properties.topic_alias == 0
    then err_topic_alias_invalid
    else if ltb 0 (length pk.properties.subscription_identifier)
    then err_protocol_violation_surplus_sub_id
    else code_success
