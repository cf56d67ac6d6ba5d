-- ===== src/Packets/Properties/Encode.antt =====
-- `Properties.Encode` of broker/packets/properties.go.
use mqtt_protocol_v.Common.{
  refl, ◌≡◌, ℕ, ◌+◌, ◌%◌, ◌^◌, Bool, true, false, not, ◌&&◌, ◌||◌, List, [], ◌∷◌, ◌++◌, ltb, ◌==◌,
  length,
}
use mqtt_protocol_v.Common.Equality.{Bytes, bytes_eq}
use mqtt_protocol_v.Common.Split.{contains}
use mqtt_protocol_v.Packets.Codec.{
  encode_uint16, encode_uint32, encode_string, encode_bytes, encode_length,
}
use mqtt_protocol_v.Packets.Packet.{Mods}
use mqtt_protocol_v.Packets.UserProperty.{UserProperty}
use mqtt_protocol_v.Packets.Properties.{Properties}
use mqtt_protocol_v.Packets.Properties.Keys
use mqtt_protocol_v.Packets.Properties.Keys.{can_encode}

-- what is written under a condition
abbrev when : Bool → Bytes → Bytes
when true bs = bs
when false bs = []

-- the loop over the subscription identifiers
identifiers : List ℕ → Bytes
identifiers [] = []
identifiers (v ∷ vs) =
    when (ltb 0 v) (Keys.subscription_identifier ∷ encode_length v) ++ identifiers vs

-- the loop over the user properties
user_properties : List UserProperty → Bytes
user_properties [] = []
user_properties (v ∷ vs) =
    (Keys.user ∷ (encode_string v.key ++ encode_string v.val)) ++ user_properties vs

-- Whether `len` more bytes stay below the size that a client takes; `n` is what is written so far.
abbrev fits : Mods → ℕ → ℕ → Bool
fits mods n len = mods.max_size == 0 || ltb ((n + len + 1) % 2 ^ 32) mods.max_size

-- the properties up to the subscription identifiers
basic_part : ℕ → Mods → ℕ → Properties → Bytes
unfolding identifiers user_properties
basic_part pkt mods n p =
    (when (can_encode pkt Keys.payload_format && p.payload_format_flag)
      (Keys.payload_format ∷ p.payload_format ∷ []))
    ++ (when (can_encode pkt Keys.message_expiry_interval && ltb 0 p.message_expiry_interval)
        (Keys.message_expiry_interval ∷ encode_uint32 p.message_expiry_interval))
    ++ (when (can_encode pkt Keys.content_type && not (bytes_eq p.content_type []))
        (Keys.content_type ∷ encode_string p.content_type))
    ++ (when
        (mods.allow_response_info
          && can_encode pkt Keys.response_topic
          && not (bytes_eq p.response_topic [])
          && not (contains b'+' p.response_topic || contains b'#' p.response_topic))
        (Keys.response_topic ∷ encode_string p.response_topic))
    ++ (when
        (mods.allow_response_info
          && can_encode pkt Keys.correlation_data
          && ltb 0 (length p.correlation_data))
        (Keys.correlation_data ∷ encode_bytes p.correlation_data))
    ++ (when
        (can_encode pkt Keys.subscription_identifier && ltb 0 (length p.subscription_identifier))
        (identifiers p.subscription_identifier))

-- the properties from the session expiry to the server reference
session_part : ℕ → Mods → ℕ → Properties → Bytes
unfolding identifiers user_properties
session_part pkt mods n p =
    (when (can_encode pkt Keys.session_expiry_interval && p.session_expiry_interval_flag)
      (Keys.session_expiry_interval ∷ encode_uint32 p.session_expiry_interval))
    ++ (when (can_encode pkt Keys.assigned_client_id && not (bytes_eq p.assigned_client_id []))
        (Keys.assigned_client_id ∷ encode_string p.assigned_client_id))
    ++ (when (can_encode pkt Keys.server_keep_alive && p.server_keep_alive_flag)
        (Keys.server_keep_alive ∷ encode_uint16 p.server_keep_alive))
    ++ (when
        (can_encode pkt Keys.authentication_method && not (bytes_eq p.authentication_method []))
        (Keys.authentication_method ∷ encode_string p.authentication_method))
    ++ (when (can_encode pkt Keys.authentication_data && ltb 0 (length p.authentication_data))
        (Keys.authentication_data ∷ encode_bytes p.authentication_data))
    ++ (when (can_encode pkt Keys.request_problem_info && p.request_problem_info_flag)
        (Keys.request_problem_info ∷ p.request_problem_info ∷ []))
    ++ (when (can_encode pkt Keys.will_delay_interval && ltb 0 p.will_delay_interval)
        (Keys.will_delay_interval ∷ encode_uint32 p.will_delay_interval))
    ++ (when (can_encode pkt Keys.request_response_info && ltb 0 p.request_response_info)
        (Keys.request_response_info ∷ p.request_response_info ∷ []))
    ++ (when
        (mods.allow_response_info
          && can_encode pkt Keys.response_info
          && ltb 0 (length p.response_info))
        (Keys.response_info ∷ encode_string p.response_info))
    ++ (when (can_encode pkt Keys.server_reference && ltb 0 (length p.server_reference))
        (Keys.server_reference ∷ encode_string p.server_reference))

-- the properties from the reason string to the retain flag
limits_part : ℕ → Mods → ℕ → Properties → Bytes
unfolding identifiers user_properties
limits_part pkt mods n p =
    (when
      (not mods.disallow_problem_info
        && can_encode pkt Keys.reason_string
        && not (bytes_eq p.reason_string []))
      (when (fits mods n (length (encode_string p.reason_string)))
        (Keys.reason_string ∷ encode_string p.reason_string)))
    ++ (when (can_encode pkt Keys.receive_maximum && ltb 0 p.receive_maximum)
        (Keys.receive_maximum ∷ encode_uint16 p.receive_maximum))
    ++ (when (can_encode pkt Keys.topic_alias_maximum && ltb 0 p.topic_alias_maximum)
        (Keys.topic_alias_maximum ∷ encode_uint16 p.topic_alias_maximum))
    ++ (when (can_encode pkt Keys.topic_alias && p.topic_alias_flag && ltb 0 p.topic_alias)
        (Keys.topic_alias ∷ encode_uint16 p.topic_alias))
    ++ (when (can_encode pkt Keys.maximum_qos && p.maximum_qos_flag && ltb p.maximum_qos 2)
        (Keys.maximum_qos ∷ p.maximum_qos ∷ []))
    ++ (when (can_encode pkt Keys.retain_available && p.retain_available_flag)
        (Keys.retain_available ∷ p.retain_available ∷ []))

-- the properties from the user properties on
features_part : ℕ → Mods → ℕ → Properties → Bytes
unfolding identifiers user_properties
features_part pkt mods n p =
    (when (not mods.disallow_problem_info && can_encode pkt Keys.user)
      (when (fits mods n (length (user_properties p.user))) (user_properties p.user)))
    ++ (when (can_encode pkt Keys.maximum_packet_size && ltb 0 p.maximum_packet_size)
        (Keys.maximum_packet_size ∷ encode_uint32 p.maximum_packet_size))
    ++ (when (can_encode pkt Keys.wildcard_sub_available && p.wildcard_sub_available_flag)
        (Keys.wildcard_sub_available ∷ p.wildcard_sub_available ∷ []))
    ++ (when (can_encode pkt Keys.sub_id_available && p.sub_id_available_flag)
        (Keys.sub_id_available ∷ p.sub_id_available ∷ []))
    ++ (when (can_encode pkt Keys.shared_sub_available && p.shared_sub_available_flag)
        (Keys.shared_sub_available ∷ p.shared_sub_available ∷ []))

-- all that is written behind the length
body : ℕ → Mods → ℕ → Properties → Bytes
unfolding basic_part session_part limits_part features_part
body pkt mods n p =
    basic_part pkt mods n p
    ++ session_part pkt mods n p
    ++ limits_part pkt mods n p
    ++ features_part pkt mods n p

-- `Properties.Encode`: what it appends to the buffer.
unfoldable pub encode : ℕ → Mods → ℕ → Properties → Bytes
unfolding body
encode pkt mods n p = let buf = body pkt mods n p in encode_length (length buf) ++ buf

-- To a client that asked for no problem information, neither the reason string nor the user
-- properties have any effect on what is sent.
pub encode_no_problem_info :
    (pkt : ℕ) (mods : Mods) (n : ℕ) (p : Properties) (reason : Bytes) (user : List UserProperty)
    → mods.disallow_problem_info ≡ true
    → encode pkt mods n (record p { reason_string = reason; user = user }) ≡ encode pkt mods n p
unfolding encode body basic_part session_part limits_part features_part
encode_no_problem_info pkt mods n p reason user off = rw (off, encode) refl

-- To a client that did not ask for response information, the response topic, the correlation data
-- and the response information have no effect on what is sent.
pub encode_no_response_info :
    (pkt : ℕ) (mods : Mods) (n : ℕ) (p : Properties) (topic correlation info : Bytes)
    → mods.allow_response_info ≡ false
    → encode pkt mods n
        (record p { response_topic = topic; correlation_data = correlation; response_info = info })
      ≡ encode pkt mods n p
unfolding encode body basic_part session_part limits_part features_part
encode_no_response_info pkt mods n p topic correlation info off = rw (off, encode) refl
