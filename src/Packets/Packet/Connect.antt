-- ===== src/Packets/Packet/Connect.antt =====
-- `ConnectEncode`, `ConnectDecode` and `ConnectValidate`.
pub mod Validation
use mqtt_protocol_v.Common.{
  ℕ, zero, suc, ◌+◌, ◌*◌, ◌/◌, ◌%◌, ◌^◌, bit_and, bit_or, Bool, true, false, not, ◌&&◌, ◌||◌,
  Option, none, some, List, [], ◌∷◌, ◌++◌, ltb, leb, ◌==◌, length, drop, if◌then◌else◌,
}
use mqtt_protocol_v.Common.Equality.{Bytes, bytes_eq, codes}
use mqtt_protocol_v.Packets.Errors.{Error, coded, index_panic, Result, ok, err, ◌>>=◌}
use mqtt_protocol_v.Packets.Codec.{
  decode_byte, decode_byte_bool, decode_uint16, decode_string, decode_bytes, encode_bool,
  encode_uint16, encode_string, encode_bytes,
}
use mqtt_protocol_v.Packets.Packet.{Packet, ConnectParams, Subscription, no_subscription}
use mqtt_protocol_v.Packets.Packet.Body.{
  wrap, finished, read_properties, read_v5, written_v5, framed,
}
use mqtt_protocol_v.Packets.Types
use mqtt_protocol_v.Packets.Codes.{
  Code, code_success, err_malformed_protocol_name, err_malformed_protocol_version,
  err_malformed_flags, err_malformed_keepalive, err_malformed_properties,
  err_client_identifier_not_valid, err_malformed_will_properties, err_malformed_will_topic,
  err_malformed_will_payload, err_protocol_violation_flag_no_username, err_malformed_username,
  err_malformed_password, err_protocol_violation_protocol_name,
  err_protocol_violation_protocol_version, err_protocol_violation_reserved_bit,
  err_protocol_violation_password_too_long, err_protocol_violation_username_too_long,
  err_protocol_violation_username_no_flag, err_protocol_violation_flag_no_password,
  err_protocol_violation_password_no_flag, err_protocol_violation_will_flag_no_payload,
  err_protocol_violation_qos_out_of_range, err_protocol_violation_will_flag_surplus_retain,
}
use mqtt_protocol_v.Packets.Properties.Encode

-- the byte of flags; the shifts are done in a `byte`
unfoldable pub connect_flags : ConnectParams → ℕ
unfolding encode_bool
connect_flags c =
    bit_or
      (bit_or
        (bit_or
          (bit_or (bit_or (encode_bool c.clean * 2) (encode_bool c.will_flag * 4))
            (c.will_qos * 8 % 256))
          (encode_bool c.will_retain * 32))
        (encode_bool c.password_flag * 64))
      (encode_bool c.username_flag * 128)

-- what is written of the will
will_part : Packet → Bytes
will_part pk =
    if pk.connect.will_flag
    then (if pk.protocol_version == 5
        then Encode.encode Types.will_properties pk.mods 0 pk.connect.will_properties
        else [])
      ++ encode_string pk.connect.will_topic
      ++ encode_bytes pk.connect.will_payload
    else []

credentials_part : ConnectParams → Bytes
credentials_part c =
    (if c.username_flag then encode_bytes c.username else [])
    ++ (if c.password_flag then encode_bytes c.password else [])

-- what follows the fixed header
unfoldable pub connect_body : Packet → Bytes
unfolding will_part credentials_part
connect_body pk =
    encode_bytes pk.connect.protocol_name
    ++ (pk.protocol_version
        ∷ connect_flags pk.connect
        ∷ (encode_uint16 pk.connect.keepalive
            ++ written_v5 pk 0
            ++ encode_string pk.connect.client_identifier
            ++ will_part pk
            ++ credentials_part pk.connect))

-- `ConnectEncode`
unfoldable pub connect_encode : Packet → Bytes
unfolding connect_body
connect_encode pk = framed pk (connect_body pk)

-- the fields that the byte of flags holds
unfoldable pub with_flags : ℕ → Packet → Packet
with_flags flags pk = record pk {
  reserved_bit = bit_and 1 flags;
  connect = record pk.connect {
    clean = ltb 0 (bit_and 1 (flags / 2));
    will_flag = ltb 0 (bit_and 1 (flags / 4));
    will_qos = bit_and 3 (flags / 8);
    will_retain = ltb 0 (bit_and 1 (flags / 32));
    password_flag = ltb 0 (bit_and 1 (flags / 64));
    username_flag = ltb 0 (bit_and 1 (flags / 128));
  };
}

-- the part up to the keepalive
decode_head : Packet → Bytes → Result (Packet × ℕ)
unfolding with_flags
decode_head pk buf = wrap err_malformed_protocol_name (decode_bytes buf 0) >>= λ (name, at_version).
    wrap err_malformed_protocol_version (decode_byte buf at_version) >>= λ (version, at_flags).
    wrap err_malformed_flags (decode_byte buf at_flags) >>= λ (flags, at_keepalive).
    wrap err_malformed_keepalive (decode_uint16 buf at_keepalive) >>= λ (keepalive, next).
    let q = with_flags flags pk in
    ok (
      record q {
        protocol_version = version;
        connect = record q.connect { protocol_name = name; keepalive = keepalive };
      },
      next,
    )

-- the properties of the will
read_will_properties : Packet → Bytes → ℕ → Result (Packet × ℕ)
read_will_properties pk buf offset =
    if pk.protocol_version == 5
    then (wrap err_malformed_will_properties
          (read_properties Types.will_properties pk.connect.will_properties (drop offset buf))
        >>= λ (p, n).
            ok (record pk { connect = record pk.connect { will_properties = p } }, offset + n))
    else ok (pk, offset)

decode_will : Bytes → Packet × ℕ → Result (Packet × ℕ)
unfolding read_will_properties
decode_will buf (pk, offset) =
    if pk.connect.will_flag
    then (read_will_properties pk buf offset >>= λ (pk', at_topic).
        wrap err_malformed_will_topic (decode_string buf at_topic) >>= λ (topic, at_payload).
        wrap err_malformed_will_payload (decode_bytes buf at_payload) >>= λ (payload, next). ok (
          record pk' {
            connect = record pk'.connect { will_topic = topic; will_payload = payload };
          },
          next,
        ))
    else ok (pk, offset)

decode_username : Bytes → Packet × ℕ → Result (Packet × ℕ)
decode_username buf (pk, offset) =
    if pk.connect.username_flag
    then (if leb (length buf) offset
        then err (coded err_protocol_violation_flag_no_username)
        else wrap err_malformed_username (decode_bytes buf offset) >>= λ (name, next).
            ok (record pk { connect = record pk.connect { username = name } }, next))
    else ok (pk, offset)

decode_password : Bytes → Packet × ℕ → Result Packet
decode_password buf (pk, offset) =
    if pk.connect.password_flag
    then (wrap err_malformed_password (decode_bytes buf offset) >>= λ (word, _).
        ok (record pk { connect = record pk.connect { password = word } }))
    else ok pk

-- the client identifier
decode_client : Bytes → Packet × ℕ → Result (Packet × ℕ)
decode_client buf (pk, offset) =
    wrap err_client_identifier_not_valid (decode_string buf offset) >>= λ (id, next).
    ok (record pk { connect = record pk.connect { client_identifier = id } }, next)

-- `ConnectDecode`
unfoldable pub connect_decode : Packet → Bytes → Result Packet
unfolding decode_head decode_will decode_username decode_password decode_client
connect_decode pk buf =
    decode_head pk buf
    >>= (λ (q, offset). read_v5 q err_malformed_properties buf offset)
    >>= decode_client buf
    >>= decode_will buf
    >>= decode_username buf
    >>= decode_password buf

abbrev is_mqisdp : Bytes → Bool
is_mqisdp name = bytes_eq name (codes "MQIsdp")

abbrev is_mqtt : Bytes → Bool
is_mqtt name = bytes_eq name (codes "MQTT")

-- the end of `ConnectValidate`, on the will
validate_will : ConnectParams → Code
validate_will c =
    if c.will_flag && (length c.will_payload == 0 || bytes_eq c.will_topic [])
    then err_protocol_violation_will_flag_no_payload
    else if c.will_flag && ltb 2 c.will_qos
    then err_protocol_violation_qos_out_of_range
    else if not c.will_flag && c.will_retain
    then err_protocol_violation_will_flag_surplus_retain
    else code_success

-- `ConnectValidate`
unfoldable pub connect_validate : Packet → Code
unfolding validate_will
connect_validate pk =
    let c = pk.connect in
    let version = pk.protocol_version in
    if not (is_mqisdp c.protocol_name) && not (is_mqtt c.protocol_name)
    then err_protocol_violation_protocol_name
    else if is_mqisdp c.protocol_name && not (version == 3)
        || (is_mqtt c.protocol_name && (not (version == 4) && not (version == 5)))
    then err_protocol_violation_protocol_version
    else if not (pk.reserved_bit == 0)
    then err_protocol_violation_reserved_bit
    else if ltb 65535 (length c.password)
    then err_protocol_violation_password_too_long
    else if ltb 65535 (length c.username)
    then err_protocol_violation_username_too_long
    else if not c.username_flag && ltb 0 (length c.username)
    then err_protocol_violation_username_no_flag
    else if c.password_flag && length c.password == 0
    then err_protocol_violation_flag_no_password
    else if not c.password_flag && ltb 0 (length c.password)
    then err_protocol_violation_password_no_flag
    else if ltb 65535 (length c.client_identifier)
    then err_client_identifier_not_valid
    else validate_will c
