-- ===== src/Packets/Packet/Session.antt =====
-- The packets that keep up a session: CONNACK, DISCONNECT, PINGREQ, PINGRESP and AUTH.
use mqtt_protocol_v.Common.{not, ◌&&◌, [], ◌∷◌, ltb, ◌==◌, drop, if◌then◌else◌}
use mqtt_protocol_v.Common.Equality.{Bytes}
use mqtt_protocol_v.Packets.Errors.{Result, ok, ◌>>=◌}
use mqtt_protocol_v.Packets.Codec.{decode_byte, decode_byte_bool, encode_bool}
use mqtt_protocol_v.Packets.FixedHeader.{FixedHeader}
use mqtt_protocol_v.Packets.Packet.{Packet}
use mqtt_protocol_v.Packets.Packet.Body.{wrap, read_properties, read_v5, written_v5, framed}
use mqtt_protocol_v.Packets.FixedHeader
use mqtt_protocol_v.Packets.Codes.{
  Code, code_byte, code_success, code_continue_authentication, code_re_authenticate,
  err_malformed_session_present, err_malformed_reason_code, err_malformed_properties,
  err_protocol_violation_invalid_reason,
}
use mqtt_protocol_v.Packets.Properties.Encode

unfoldable pub connack_body : Packet → Bytes
connack_body pk = encode_bool pk.session_present ∷ pk.reason_code ∷ written_v5 pk 4

-- `ConnackEncode`
unfoldable pub connack_encode : Packet → Bytes
unfolding connack_body
connack_encode pk = framed pk (connack_body pk)

-- `ConnackDecode`
unfoldable pub connack_decode : Packet → Bytes → Result Packet
connack_decode pk buf =
    wrap err_malformed_session_present (decode_byte_bool buf 0) >>= λ (present, at_reason).
    wrap err_malformed_reason_code (decode_byte buf at_reason) >>= λ (reason, next).
    read_v5 (record pk { session_present = present; reason_code = reason }) err_malformed_properties
      buf next
    >>= λ (q, _). ok q

unfoldable pub disconnect_body : Packet → Bytes
disconnect_body pk = if pk.protocol_version == 5 then pk.reason_code ∷ written_v5 pk 1 else []

-- `DisconnectEncode`
unfoldable pub disconnect_encode : Packet → Bytes
unfolding disconnect_body
disconnect_encode pk = framed pk (disconnect_body pk)

-- `DisconnectDecode`
unfoldable pub disconnect_decode : Packet → Bytes → Result Packet
disconnect_decode pk buf =
    if pk.protocol_version == 5 && ltb 1 pk.fixed_header.remaining
    then (wrap err_malformed_reason_code (decode_byte buf 0) >>= λ (reason, next).
        let q = record pk { reason_code = reason } in
        if ltb 2 pk.fixed_header.remaining
        then (read_v5 q err_malformed_properties buf next >>= λ (r, _). ok r)
        else ok q)
    else ok pk

-- `PingreqEncode` and `PingrespEncode`
unfoldable pub ping_encode : Packet → Bytes
ping_encode pk = FixedHeader.encode pk.fixed_header

-- `PingreqDecode` and `PingrespDecode`
unfoldable pub ping_decode : Packet → Bytes → Result Packet
ping_decode pk buf = ok pk

-- An AUTH packet has its properties in every version.
unfoldable pub auth_body : Packet → Bytes
auth_body pk = pk.reason_code ∷ Encode.encode pk.fixed_header.packet_type pk.mods 1 pk.properties

-- `AuthEncode`
unfoldable pub auth_encode : Packet → Bytes
unfolding auth_body
auth_encode pk = framed pk (auth_body pk)

-- `AuthDecode`
unfoldable pub auth_decode : Packet → Bytes → Result Packet
auth_decode pk buf = wrap err_malformed_reason_code (decode_byte buf 0) >>= λ (reason, next).
    wrap err_malformed_properties
      (read_properties pk.fixed_header.packet_type pk.properties (drop next buf))
    >>= λ (p, _). ok (record pk { reason_code = reason; properties = p })

-- `AuthValidate`
unfoldable pub auth_validate : Packet → Code
auth_validate pk =
    if not (pk.reason_code == code_byte code_success)
      && (not (pk.reason_code == code_byte code_continue_authentication)
          && not (pk.reason_code == code_byte code_re_authenticate))
    then err_protocol_violation_invalid_reason
    else code_success
