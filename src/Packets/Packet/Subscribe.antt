-- ===== src/Packets/Packet/Subscribe.antt =====
-- `Subscription.encode` and `decode`, SUBSCRIBE and SUBACK.
pub mod Options
pub mod Panic
pub mod Total
pub mod RoundTrip
use mqtt_protocol_v.Common.{
  ℕ, zero, suc, ◌+◌, ◌*◌, ◌/◌, ◌%◌, ◌^◌, bit_and, bit_or, Bool, true, false, not, ◌&&◌, ◌||◌,
  Option, none, some, List, [], ◌∷◌, ◌++◌, ltb, leb, ◌==◌, length, drop, get_or, if◌then◌else◌,
}
use mqtt_protocol_v.Common.Equality.{Bytes, bytes_eq, codes}
use mqtt_protocol_v.Packets.Errors.{Error, coded, index_panic, Result, ok, err, ◌>>=◌}
use mqtt_protocol_v.Packets.Codec.{
  decode_byte, decode_byte_bool, decode_uint16, decode_string, decode_bytes, encode_bool,
  encode_uint16, encode_string, encode_bytes,
}
use mqtt_protocol_v.Packets.FixedHeader.{FixedHeader}
use mqtt_protocol_v.Packets.Packet.{Packet, ConnectParams, Subscription, no_subscription, no_packet}
use mqtt_protocol_v.Packets.Packet.Body.{
  wrap, finished, read_properties, read_v5, written_v5, framed,
}
use mqtt_protocol_v.Packets.Types
use mqtt_protocol_v.Packets.Codes.{
  Code, code_success, err_protocol_violation_no_packet_id, err_malformed_packet_id,
  err_malformed_properties, err_malformed_topic, err_malformed_qos,
  err_protocol_violation_qos_out_of_range, err_protocol_violation_no_filters,
  err_protocol_violation_oversize_sub_id,
}

-- `Subscription.encode`; the shifts are done in a `byte`
unfoldable pub encode_options : Subscription → ℕ
unfolding encode_bool
encode_options s =
    bit_or
      (bit_or (bit_or s.qos (encode_bool s.no_local * 4)) (encode_bool s.retain_as_published * 8))
      (s.retain_handling * 16 % 256)

-- `Subscription.decode`
unfoldable pub decode_options : Subscription → ℕ → Subscription
decode_options s b = record s {
  qos = bit_and b 3;
  no_local = ltb 0 (bit_and 1 (b / 4));
  retain_as_published = ltb 0 (bit_and 1 (b / 8));
  retain_handling = bit_and 3 (b / 16);
}

-- the loop of `SubscribeEncode`
pub filters_part : ℕ → List Subscription → Bytes
unfolding encode_options
filters_part version [] = []
filters_part version (s ∷ filters) =
    encode_string s.filter
    ++ ((if version == 5 then encode_options s else s.qos) ∷ filters_part version filters)

unfoldable pub subscribe_body : Packet → Bytes
unfolding filters_part
subscribe_body pk =
    let xb = filters_part pk.protocol_version pk.filters in
    encode_uint16 pk.packet_id ++ written_v5 pk (2 + length xb) ++ xb

-- `SubscribeEncode`
unfoldable pub subscribe_encode : Packet → Result Bytes
unfolding subscribe_body
subscribe_encode pk =
    if pk.packet_id == 0
    then err (coded err_protocol_violation_no_packet_id)
    else ok (framed pk (subscribe_body pk))

-- The options of a filter. In version 5 the source indexes the buffer without a test of its length.
read_options : ℕ → Subscription → Bytes → ℕ → Result (Subscription × ℕ)
unfolding decode_options
read_options version s buf offset =
    if version == 5
    then (if ltb offset (length buf)
        then ok (decode_options s (get_or buf offset 0), offset + 1)
        else err index_panic)
    else (wrap err_malformed_qos (decode_byte buf offset) >>= λ (option, next).
        ok (record s { qos = option }, next))

-- the first subscription identifier, where the properties have one
abbrev first_identifier : List ℕ → ℕ
first_identifier [] = 0
first_identifier (id ∷ ids) = id

-- a round of the loop of `SubscribeDecode`
read_filter : Packet → Bytes → ℕ → Result (Subscription × ℕ)
unfolding read_options
read_filter pk buf offset =
    wrap err_malformed_topic (decode_string buf offset) >>= λ (filter, at_options).
    read_options pk.protocol_version (record no_subscription { filter = filter }) buf at_options
    >>= λ (s, next).
        if ltb 2 s.qos
        then err (coded err_protocol_violation_qos_out_of_range)
        else ok
            (record s { identifier = first_identifier pk.properties.subscription_identifier }, next)

-- the loop, on fuel for its rounds; `none` where the fuel is used up
pub filters_loop : ℕ → Packet → Bytes → ℕ → List Subscription → Option (Result Packet)
unfolding read_filter
filters_loop zero pk buf offset filters =
    if ltb offset (length buf) then none else some (ok (record pk { filters = filters }))
filters_loop (suc fuel) pk buf offset filters =
    if ltb offset (length buf)
    then (elim (read_filter pk buf offset) [
      | err e ↦ some (err e)
      | ok (s, next) ↦ filters_loop fuel pk buf next (filters ++ s ∷ [])
    ])
    else some (ok (record pk { filters = filters }))

-- `SubscribeDecode`, with a round of fuel for each byte
unfoldable pub subscribe_decode : Packet → Bytes → Result Packet
unfolding filters_loop
subscribe_decode pk buf =
    wrap err_malformed_packet_id (decode_uint16 buf 0) >>= λ (id, at_properties).
    read_v5 (record pk { packet_id = id }) err_malformed_properties buf at_properties
    >>= λ (q, offset). finished (filters_loop (length buf) q buf offset [])

any_oversize : List Subscription → Bool
any_oversize [] = false
any_oversize (s ∷ filters) = ltb 268435455 s.identifier || any_oversize filters

-- `SubscribeValidate`
unfoldable pub subscribe_validate : Packet → Code
unfolding any_oversize
subscribe_validate pk =
    if ltb 0 pk.fixed_header.qos && pk.packet_id == 0
    then err_protocol_violation_no_packet_id
    else if length pk.filters == 0
    then err_protocol_violation_no_filters
    else if any_oversize pk.filters
    then err_protocol_violation_oversize_sub_id
    else code_success

unfoldable pub suback_body : Packet → Bytes
suback_body pk =
    encode_uint16 pk.packet_id ++ written_v5 pk (2 + length pk.reason_codes) ++ pk.reason_codes

-- `SubackEncode`
unfoldable pub suback_encode : Packet → Bytes
unfolding suback_body
suback_encode pk = framed pk (suback_body pk)

-- `SubackDecode`
unfoldable pub suback_decode : Packet → Bytes → Result Packet
suback_decode pk buf = wrap err_malformed_packet_id (decode_uint16 buf 0) >>= λ (id, at_properties).
    read_v5 (record pk { packet_id = id }) err_malformed_properties buf at_properties
    >>= λ (q, offset). ok (record q { reason_codes = drop offset buf })
