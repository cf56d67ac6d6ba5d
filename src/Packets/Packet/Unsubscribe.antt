-- ===== src/Packets/Packet/Unsubscribe.antt =====
-- UNSUBSCRIBE and UNSUBACK.
pub mod Total
use mqtt_protocol_v.Common.{
  ℕ, zero, suc, ◌+◌, ◌*◌, ◌/◌, ◌%◌, ◌^◌, bit_and, bit_or, Bool, true, false, not, ◌&&◌, ◌||◌,
  Option, none, some, List, [], ◌∷◌, ◌++◌, ltb, leb, ◌==◌, length, drop, get_or, if◌then◌else◌,
}
use mqtt_protocol_v.Common.Equality.{Bytes, bytes_eq, codes}
use mqtt_protocol_v.Packets.Errors.{Error, coded, index_panic, Result, ok, err, ◌>>=◌}
use mqtt_protocol_v.Packets.Codec.{
  decode_byte, decode_byte_bool, decode_uint16, decode_string, decode_bytes, encode_bool,
  encode_uint16, encode_string, encode_bytes,
}
use mqtt_protocol_v.Packets.FixedHeader.{FixedHeader}
use mqtt_protocol_v.Packets.Packet.{Packet, ConnectParams, Subscription, no_subscription, no_packet}
use mqtt_protocol_v.Packets.Packet.Body.{
  wrap, finished, read_properties, read_v5, written_v5, framed,
}
use mqtt_protocol_v.Packets.Types
use mqtt_protocol_v.Packets.Codes.{
  Code, code_success, err_protocol_violation_no_packet_id, err_malformed_packet_id,
  err_malformed_properties, err_malformed_topic, err_protocol_violation_no_filters,
}

-- the loop of `UnsubscribeEncode`
names_part : List Subscription → Bytes
names_part [] = []
names_part (s ∷ filters) = encode_string s.filter ++ names_part filters

unfoldable pub unsubscribe_body : Packet → Bytes
unfolding names_part
unsubscribe_body pk =
    let xb = names_part pk.filters in
    encode_uint16 pk.packet_id ++ written_v5 pk (2 + length xb) ++ xb

-- `UnsubscribeEncode`
unfoldable pub unsubscribe_encode : Packet → Result Bytes
unfolding unsubscribe_body
unsubscribe_encode pk =
    if pk.packet_id == 0
    then err (coded err_protocol_violation_no_packet_id)
    else ok (framed pk (unsubscribe_body pk))

-- the loop of `UnsubscribeDecode`, on fuel for its rounds; `none` where the fuel is used up
pub names_loop : ℕ → Packet → Bytes → ℕ → List Subscription → Option (Result Packet)
names_loop zero pk buf offset filters =
    if ltb offset (length buf) then none else some (ok (record pk { filters = filters }))
names_loop (suc fuel) pk buf offset filters =
    if ltb offset (length buf)
    then (elim (wrap err_malformed_topic (decode_string buf offset)) [
      | err e ↦ some (err e)
      | ok (filter, next) ↦
          names_loop fuel pk buf next (filters ++ record no_subscription { filter = filter } ∷ [])
    ])
    else some (ok (record pk { filters = filters }))

-- `UnsubscribeDecode`, with a round of fuel for each byte
unfoldable pub unsubscribe_decode : Packet → Bytes → Result Packet
unfolding names_loop
unsubscribe_decode pk buf =
    wrap err_malformed_packet_id (decode_uint16 buf 0) >>= λ (id, at_properties).
    read_v5 (record pk { packet_id = id }) err_malformed_properties buf at_properties
    >>= λ (q, offset). finished (names_loop (length buf) q buf offset [])

-- `UnsubscribeValidate`
unfoldable pub unsubscribe_validate : Packet → Code
unsubscribe_validate pk =
    if ltb 0 pk.fixed_header.qos && pk.packet_id == 0
    then err_protocol_violation_no_packet_id
    else if length pk.filters == 0
    then err_protocol_violation_no_filters
    else code_success

unfoldable pub unsuback_body : Packet → Bytes
unsuback_body pk =
    encode_uint16 pk.packet_id
    ++ (if pk.protocol_version == 5 then written_v5 pk 2 ++ pk.reason_codes else [])

-- `UnsubackEncode`
unfoldable pub unsuback_encode : Packet → Bytes
unfolding unsuback_body
unsuback_encode pk = framed pk (unsuback_body pk)

-- `UnsubackDecode`
unfoldable pub unsuback_decode : Packet → Bytes → Result Packet
unsuback_decode pk buf =
    wrap err_malformed_packet_id (decode_uint16 buf 0) >>= λ (id, at_properties).
    read_v5 (record pk { packet_id = id }) err_malformed_properties buf at_properties
    >>= λ (q, offset).
        ok (if pk.protocol_version == 5 then record q { reason_codes = drop offset buf } else q)
