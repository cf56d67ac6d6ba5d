-- ===== src/Packets/Properties/Runs.antt =====
-- Runs of the properties on concrete values, and their theorems there.
use mqtt_protocol_v.Common.{ℕ, ◌≡◌, refl, true, false, some, [], ◌∷◌, ◌++◌, arith}
use mqtt_protocol_v.Common.Equality.{bytes_eq, codes}
use mqtt_protocol_v.Common.Map
use mqtt_protocol_v.Packets.Errors.{Result, ok, err, invalid_property}
use mqtt_protocol_v.Packets.Codec.{
  encode_length, decode_length, decode_byte, decode_string, utf8_valid, encode_string,
  encode_uint16,
}
use mqtt_protocol_v.Packets.Packet.{Mods}
use mqtt_protocol_v.Packets.Types
use mqtt_protocol_v.Packets.Properties.{Properties, no_properties}
use mqtt_protocol_v.Packets.Properties.Keys.{can_encode}
use mqtt_protocol_v.Packets.Properties.Encode.{encode}
use mqtt_protocol_v.Packets.Properties.Decode.{decode}
use mqtt_protocol_v.Packets.Properties.Decode.Total.{decode_total, decode_prohibited}

abbrev quiet : Mods
quiet = record { max_size = 0; disallow_problem_info = true; allow_response_info = false }

abbrev sample : Properties
sample = record no_properties {
  payload_format = 1;
  payload_format_flag = true;
  content_type = codes "a";
  topic_alias = 7;
  topic_alias_flag = true;
}

encode_wire : encode Types.publish quiet 0 sample ≡ 9 ∷ 1 ∷ 1 ∷ 3 ∷ 0 ∷ 1 ∷ 97 ∷ 35 ∷ 0 ∷ 7 ∷ []
unfolding encode can_encode bytes_eq encode_string encode_uint16 encode_length Map.lookup
encode_wire = refl

decode_wire :
    decode Types.publish no_properties (9 ∷ 1 ∷ 1 ∷ 3 ∷ 0 ∷ 1 ∷ 97 ∷ 35 ∷ 0 ∷ 7 ∷ 42 ∷ [])
    ≡ some (ok (sample, 10))
unfolding decode can_encode decode_length decode_byte decode_string utf8_valid Map.lookup
decode_wire = refl

decode_total_example :
    (r : Result (Properties × ℕ)) × (decode Types.publish no_properties (3 ∷ 1 ∷ []) ≡ some r)
decode_total_example = decode_total Types.publish no_properties (3 ∷ 1 ∷ [])

decode_prohibited_example :
    decode Types.publish no_properties (encode_length 3 ++ (17 ∷ 0 ∷ []))
    ≡ some (err (invalid_property 17 Types.publish))
unfolding can_encode Map.lookup
decode_prohibited_example =
    decode_prohibited Types.publish no_properties 3 17 (0 ∷ []) (omega arith) (omega arith) refl
