-- ===== src/Packets/Properties/Decode.antt =====
-- `Properties.Decode` of broker/packets/properties.go. The count that it returns beside an error is
-- left out, and so is what it has already set by then: its callers drop the packet.
pub mod Total
use mqtt_protocol_v.Common.{
  ℕ, zero, suc, ◌+◌, Bool, true, false, not, Option, none, some, List, [], ◌∷◌, ◌++◌, ltb, ◌==◌,
  drop, length, if◌then◌else◌,
}
use mqtt_protocol_v.Common.Equality.{Bytes, nat_eq}
use mqtt_protocol_v.Common.Map
use mqtt_protocol_v.Common.Map.{Map}
use mqtt_protocol_v.Packets.Errors.{Error, invalid_property, Result, ok, err, ◌>>=◌}
use mqtt_protocol_v.Packets.Codec.{
  decode_byte, decode_uint16, decode_uint32, decode_string, decode_bytes, decode_length, LengthRead,
  done, failed,
}
use mqtt_protocol_v.Packets.Properties.{Properties}
use mqtt_protocol_v.Packets.Properties.Keys
use mqtt_protocol_v.Packets.Properties.Keys.{can_encode}

-- How a case of the switch reads its value and what it then sets.
pub data Field : Type 0 where
  byte_field uint16_field uint32_field : (ℕ → Properties → Properties) → Field
  string_field bytes_field : (Bytes → Properties → Properties) → Field
  identifier_field user_field : Field

-- the cases of the switch
fields : Map ℕ Field
fields =
    (
      Keys.payload_format,
      byte_field (λ v p. record p { payload_format = v; payload_format_flag = true }),
    )
    ∷ (Keys.message_expiry_interval, uint32_field (λ v p. record p { message_expiry_interval = v }))
    ∷ (Keys.content_type, string_field (λ v p. record p { content_type = v }))
    ∷ (Keys.response_topic, string_field (λ v p. record p { response_topic = v }))
    ∷ (Keys.correlation_data, bytes_field (λ v p. record p { correlation_data = v }))
    ∷ (Keys.subscription_identifier, identifier_field)
    ∷ (
      Keys.session_expiry_interval,
      uint32_field
          (λ v p. record p { session_expiry_interval = v; session_expiry_interval_flag = true }),
    )
    ∷ (Keys.assigned_client_id, string_field (λ v p. record p { assigned_client_id = v }))
    ∷ (
      Keys.server_keep_alive,
      uint16_field (λ v p. record p { server_keep_alive = v; server_keep_alive_flag = true }),
    )
    ∷ (Keys.authentication_method, string_field (λ v p. record p { authentication_method = v }))
    ∷ (Keys.authentication_data, bytes_field (λ v p. record p { authentication_data = v }))
    ∷ (
      Keys.request_problem_info,
      byte_field (λ v p. record p { request_problem_info = v; request_problem_info_flag = true }),
    )
    ∷ (Keys.will_delay_interval, uint32_field (λ v p. record p { will_delay_interval = v }))
    ∷ (Keys.request_response_info, byte_field (λ v p. record p { request_response_info = v }))
    ∷ (Keys.response_info, string_field (λ v p. record p { response_info = v }))
    ∷ (Keys.server_reference, string_field (λ v p. record p { server_reference = v }))
    ∷ (Keys.reason_string, string_field (λ v p. record p { reason_string = v }))
    ∷ (Keys.receive_maximum, uint16_field (λ v p. record p { receive_maximum = v }))
    ∷ (Keys.topic_alias_maximum, uint16_field (λ v p. record p { topic_alias_maximum = v }))
    ∷ (
      Keys.topic_alias,
      uint16_field (λ v p. record p { topic_alias = v; topic_alias_flag = true }),
    )
    ∷ (Keys.maximum_qos, byte_field (λ v p. record p { maximum_qos = v; maximum_qos_flag = true }))
    ∷ (
      Keys.retain_available,
      byte_field (λ v p. record p { retain_available = v; retain_available_flag = true }),
    )
    ∷ (Keys.user, user_field)
    ∷ (Keys.maximum_packet_size, uint32_field (λ v p. record p { maximum_packet_size = v }))
    ∷ (
      Keys.wildcard_sub_available,
      byte_field
          (λ v p. record p { wildcard_sub_available = v; wildcard_sub_available_flag = true }),
    )
    ∷ (
      Keys.sub_id_available,
      byte_field (λ v p. record p { sub_id_available = v; sub_id_available_flag = true }),
    )
    ∷ (
      Keys.shared_sub_available,
      byte_field (λ v p. record p { shared_sub_available = v; shared_sub_available_flag = true }),
    )
    ∷ []

read_identifier : Properties → ℕ → LengthRead → Result (Properties × ℕ)
read_identifier p offset (failed bu e) = err e
read_identifier p offset (done n bu rest) =
    ok (record p { subscription_identifier = p.subscription_identifier ++ n ∷ [] }, offset + bu)

-- one case of the switch: the properties and the offset behind the value
read_field : Bytes → ℕ → Properties → Field → Result (Properties × ℕ)
unfolding read_identifier
read_field bt offset p (byte_field set) = decode_byte bt offset >>= λ (v, next). ok (set v p, next)
read_field bt offset p (uint16_field set) =
    decode_uint16 bt offset >>= λ (v, next). ok (set v p, next)
read_field bt offset p (uint32_field set) =
    decode_uint32 bt offset >>= λ (v, next). ok (set v p, next)
read_field bt offset p (string_field set) =
    decode_string bt offset >>= λ (v, next). ok (set v p, next)
read_field bt offset p (bytes_field set) =
    decode_bytes bt offset >>= λ (v, next). ok (set v p, next)
read_field bt offset p identifier_field = read_identifier p offset (decode_length (drop offset bt))
read_field bt offset p user_field = decode_string bt offset >>= λ (k, middle).
    decode_string bt middle >>= λ (v, next).
    ok (record p { user = p.user ++ record { key = k; val = v } ∷ [] }, next)

-- a key without a case is passed over
read_case : Bytes → ℕ → Properties → Option Field → Result (Properties × ℕ)
unfolding read_field
read_case bt offset p none = ok (p, offset)
read_case bt offset p (some field) = read_field bt offset p field

-- the switch, under the test of the key
read_value : ℕ → Bytes → Properties → ℕ × ℕ → Result (Properties × ℕ)
unfolding read_case fields
read_value pkt bt p (k, next) =
    if not (can_encode pkt k)
    then err (invalid_property k pkt)
    else read_case bt next p (Map.lookup k fields)

-- a round of the loop
decode_one : ℕ → Bytes → ℕ → Properties → Result (Properties × ℕ)
unfolding read_value
decode_one pkt bt offset p = decode_byte bt offset >>= read_value pkt bt p

-- the loop, on fuel for its rounds; `none` where the fuel is used up
decode_loop : ℕ → ℕ → Bytes → ℕ → ℕ → Properties → Option (Result Properties)
unfolding decode_one
decode_loop zero pkt bt n offset p = if ltb offset n then none else some (ok p)
decode_loop (suc fuel) pkt bt n offset p =
    if ltb offset n
    then (elim (decode_one pkt bt offset p) [
      | err e ↦ some (err e)
      | ok (p', next) ↦ decode_loop fuel pkt bt n next p'
    ])
    else some (ok p)

abbrev counted : ℕ → Option (Result Properties) → Option (Result (Properties × ℕ))
counted m none = none
counted m (some (err e)) = some (err e)
counted m (some (ok p)) = some (ok (p, m))

-- what follows the length
decode_body : ℕ → Properties → LengthRead → Option (Result (Properties × ℕ))
unfolding decode_loop
decode_body pkt p (failed bu e) = some (err e)
decode_body pkt p (done n bu bt) =
    if n == 0 then some (ok (p, n + bu)) else counted (n + bu) (decode_loop n pkt bt n 0 p)

-- `Properties.Decode`, with a round of fuel for each byte of the properties: the properties and the
-- number of bytes they take.
unfoldable pub decode : ℕ → Properties → Bytes → Option (Result (Properties × ℕ))
unfolding decode_body
decode pkt p b = decode_body pkt p (decode_length b)
