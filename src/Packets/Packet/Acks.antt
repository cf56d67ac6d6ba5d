-- ===== src/Packets/Packet/Acks.antt =====
-- The acknowledgements of a publish, and `ReasonCodeValid`. `PubackEncode`, `PubrecEncode`,
-- `PubrelEncode` and `PubcompEncode` are `encodePubAckRelRecComp`, and so are their decoders
-- `decodePubAckRelRecComp`.
use mqtt_protocol_v.Common.{
  ℕ, Bool, true, ◌&&◌, ◌||◌, List, [], ◌∷◌, ◌++◌, ltb, leb, ◌==◌, length, if◌then◌else◌,
}
use mqtt_protocol_v.Common.Equality.{Bytes}
use mqtt_protocol_v.Packets.Errors.{Result, ok, ◌>>=◌}
use mqtt_protocol_v.Packets.Codec.{decode_byte, decode_uint16, encode_uint16}
use mqtt_protocol_v.Packets.Packet.{Packet}
use mqtt_protocol_v.Packets.Packet.Body.{wrap, read_v5, written_v5, framed}
use mqtt_protocol_v.Packets.Types
use mqtt_protocol_v.Common.Split.{contains}
use mqtt_protocol_v.Packets.Codes
use mqtt_protocol_v.Packets.Codes.{
  Code, code_byte, err_malformed_packet_id, err_malformed_reason_code, err_malformed_properties,
  err_unspecified_error,
}

-- the reason code and the properties, which may be left out
reason_part : Packet → Bytes → Bytes
reason_part pk pb =
    (if leb (code_byte err_unspecified_error) pk.reason_code || ltb 1 (length pb)
      then pk.reason_code ∷ []
      else [])
    ++ (if ltb 1 (length pb) then pb else [])

unfoldable pub ack_body : Packet → Bytes
unfolding reason_part
ack_body pk =
    encode_uint16 pk.packet_id
    ++ (if pk.protocol_version == 5 then reason_part pk (written_v5 pk 2) else [])

-- `encodePubAckRelRecComp`
unfoldable pub ack_encode : Packet → Bytes
unfolding ack_body
ack_encode pk = framed pk (ack_body pk)

-- what follows the packet identifier
ack_rest : Bytes → Packet × ℕ → Result Packet
ack_rest buf (pk, offset) =
    if pk.protocol_version == 5 && ltb 2 pk.fixed_header.remaining
    then (wrap err_malformed_reason_code (decode_byte buf offset) >>= λ (reason, next).
        let q = record pk { reason_code = reason } in
        if ltb 3 pk.fixed_header.remaining
        then (read_v5 q err_malformed_properties buf next >>= λ (r, _). ok r)
        else ok q)
    else ok pk

-- `decodePubAckRelRecComp`
unfoldable pub ack_decode : Packet → Bytes → Result Packet
unfolding ack_rest
ack_decode pk buf = wrap err_malformed_packet_id (decode_uint16 buf 0) >>= λ (id, next).
    ack_rest buf (record pk { packet_id = id }, next)

-- the cases of `ReasonCodeValid`
pubrec_reasons : List ℕ
pubrec_reasons =
    code_byte Codes.code_success
    ∷ code_byte Codes.code_no_matching_subscribers
    ∷ code_byte Codes.err_unspecified_error
    ∷ code_byte Codes.err_implementation_specific_error
    ∷ code_byte Codes.err_not_authorized
    ∷ code_byte Codes.err_topic_name_invalid
    ∷ code_byte Codes.err_packet_identifier_in_use
    ∷ code_byte Codes.err_quota_exceeded
    ∷ code_byte Codes.err_payload_format_invalid
    ∷ []

pubrel_reasons : List ℕ
pubrel_reasons = code_byte Codes.code_success ∷ code_byte Codes.err_packet_identifier_not_found ∷ []

suback_reasons : List ℕ
suback_reasons =
    code_byte Codes.code_granted_qos0
    ∷ code_byte Codes.code_granted_qos1
    ∷ code_byte Codes.code_granted_qos2
    ∷ code_byte Codes.err_unspecified_error
    ∷ code_byte Codes.err_implementation_specific_error
    ∷ code_byte Codes.err_not_authorized
    ∷ code_byte Codes.err_topic_filter_invalid
    ∷ code_byte Codes.err_packet_identifier_in_use
    ∷ code_byte Codes.err_quota_exceeded
    ∷ code_byte Codes.err_shared_subscriptions_not_supported
    ∷ code_byte Codes.err_subscription_identifiers_not_supported
    ∷ code_byte Codes.err_wildcard_subscriptions_not_supported
    ∷ []

unsuback_reasons : List ℕ
unsuback_reasons =
    code_byte Codes.code_success
    ∷ code_byte Codes.code_no_subscription_existed
    ∷ code_byte Codes.err_unspecified_error
    ∷ code_byte Codes.err_implementation_specific_error
    ∷ code_byte Codes.err_not_authorized
    ∷ code_byte Codes.err_topic_filter_invalid
    ∷ code_byte Codes.err_packet_identifier_in_use
    ∷ []

-- `ReasonCodeValid`
unfoldable pub reason_code_valid : Packet → Bool
unfolding pubrec_reasons pubrel_reasons suback_reasons unsuback_reasons
reason_code_valid pk =
    let t = pk.fixed_header.packet_type in
    if t == Types.pubrec
    then contains pk.reason_code pubrec_reasons
    else if t == Types.pubrel || t == Types.pubcomp
    then contains pk.reason_code pubrel_reasons
    else if t == Types.suback
    then contains pk.reason_code suback_reasons
    else if t == Types.unsuback
    then contains pk.reason_code unsuback_reasons
    else true
