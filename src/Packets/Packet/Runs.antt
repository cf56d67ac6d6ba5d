-- ===== src/Packets/Packet/Runs.antt =====
-- Runs of the packets' encoders, decoders and validators on concrete values, and their theorems there.
use mqtt_protocol_v.Common.{ℕ, ◌≡◌, ◌↔◌, ◌≤◌, refl, true, some, [], ◌∷◌, ◌++◌, arith, length}
use mqtt_protocol_v.Common.Equality.{codes}
use mqtt_protocol_v.Packets.Types
use mqtt_protocol_v.Packets.Codes.{code_success}
use mqtt_protocol_v.Packets.Errors.{ok, err, index_panic}
use mqtt_protocol_v.Packets.FixedHeader
use mqtt_protocol_v.Packets.FixedHeader.{FixedHeader, blank}
use mqtt_protocol_v.Packets.Codec.{
  valid_utf8, utf8_valid, encode_string, encode_bytes, encode_uint16, encode_length, decode_string,
  decode_bytes, decode_uint16, decode_byte,
}
use mqtt_protocol_v.Packets.Packet.{Packet, Subscription, no_packet, no_connect, no_subscription}
use mqtt_protocol_v.Packets.Packet.Body.{read_v5, written_v5, framed}
use mqtt_protocol_v.Packets.Packet.Connect.{
  connect_body, connect_flags, connect_decode, with_flags, connect_validate,
}
use mqtt_protocol_v.Packets.Packet.Connect.Validation.{
  protocol_fits, username_fits, password_fits, will_fits, connect_validate_accepts,
}
use mqtt_protocol_v.Packets.Packet.Publish.{publish_body, publish_encode, publish_decode}
use mqtt_protocol_v.Packets.Packet.Publish.RoundTrip.{publish_decode-publish_body}
use mqtt_protocol_v.Packets.Packet.Subscribe.{
  encode_options, decode_options, subscribe_decode, filters_loop,
}
use mqtt_protocol_v.Packets.Packet.Subscribe.Options.{decode_options-encode_options}
use mqtt_protocol_v.Packets.Packet.Subscribe.Panic.{subscribe_decode_panics}
use mqtt_protocol_v.Common.{List, ◌++◌, map, some}
use mqtt_protocol_v.Packets.Packet.Subscribe.{filters_part}
use mqtt_protocol_v.Packets.Packet.Subscribe.RoundTrip.{as_read, filters_loop-filters_part}

abbrev two_filters : List Subscription
two_filters =
    record no_subscription { filter = codes "a"; qos = 1 }
    ∷ record no_subscription { filter = codes "b"; qos = 2 }
    ∷ []

abbrev header : ℕ → ℕ → FixedHeader
header t q = record blank { packet_type = t; qos = q }

abbrev published : Packet
published = record no_packet {
  fixed_header = header Types.publish 1;
  protocol_version = 4;
  packet_id = 7;
  topic_name = codes "a";
  payload = 42 ∷ [];
}

abbrev connecting : Packet
connecting = record no_packet {
  fixed_header = header Types.connect 0;
  protocol_version = 4;
  connect = record no_connect {
    protocol_name = codes "MQTT";
    client_identifier = codes "x";
    keepalive = 30;
    clean = true;
    username_flag = true;
    username = codes "u";
  };
}

publish_wire : publish_encode published ≡ ok (50 ∷ 6 ∷ 0 ∷ 1 ∷ 97 ∷ 0 ∷ 7 ∷ 42 ∷ [])
unfolding publish_encode publish_body framed FixedHeader.encode encode_string encode_uint16
    encode_length written_v5
publish_wire = refl

connect_wire :
    connect_body connecting
    ≡ 0 ∷ 4 ∷ 77 ∷ 81 ∷ 84 ∷ 84 ∷ 4 ∷ 130 ∷ 0 ∷ 30 ∷ 0 ∷ 1 ∷ 120 ∷ 0 ∷ 1 ∷ 117 ∷ []
unfolding connect_body connect_flags encode_bytes encode_string encode_uint16 written_v5
connect_wire = refl

connect_read :
    connect_decode
      (record no_packet { fixed_header = header Types.connect 0 })
      (0 ∷ 4 ∷ 77 ∷ 81 ∷ 84 ∷ 84 ∷ 4 ∷ 130 ∷ 0 ∷ 30 ∷ 0 ∷ 1 ∷ 120 ∷ 0 ∷ 1 ∷ 117 ∷ [])
    ≡ ok connecting
unfolding connect_decode with_flags read_v5 decode_bytes decode_string decode_byte decode_uint16
    utf8_valid
connect_read = refl

subscribe_read :
    subscribe_decode
      (record no_packet { protocol_version = 4 })
      (0 ∷ 9 ∷ 0 ∷ 1 ∷ 97 ∷ 1 ∷ 0 ∷ 1 ∷ 98 ∷ 2 ∷ [])
    ≡ ok (record no_packet {
      protocol_version = 4;
      packet_id = 9;
      filters =
          record no_subscription { filter = codes "a"; qos = 1 }
          ∷ record no_subscription { filter = codes "b"; qos = 2 }
          ∷ [];
    })
unfolding subscribe_decode read_v5 decode_string decode_byte decode_uint16 utf8_valid
subscribe_read = refl

valid_a : valid_utf8 (codes "a") ≡ true
unfolding valid_utf8 utf8_valid
valid_a = refl

valid_b : valid_utf8 (codes "b") ≡ true
unfolding valid_utf8 utf8_valid
valid_b = refl

publish_decode-publish_body_example :
    publish_decode
      (record no_packet { fixed_header = header Types.publish 1; protocol_version = 4 })
      (publish_body published)
    ≡ ok (record no_packet {
      fixed_header = header Types.publish 1;
      protocol_version = 4;
      topic_name = codes "a";
      packet_id = 7;
      payload = 42 ∷ [];
    })
publish_decode-publish_body_example =
    publish_decode-publish_body published
      (record no_packet { fixed_header = header Types.publish 1; protocol_version = 4 }) refl refl
      refl valid_a (omega arith) (omega arith)

abbrev options : Subscription
options = record no_subscription { qos = 1; retain_handling = 2; no_local = true }

decode_options-encode_options_example :
    decode_options (record no_subscription { filter = codes "a" }) (encode_options options)
    ≡ record no_subscription { filter = codes "a"; qos = 1; retain_handling = 2; no_local = true }
decode_options-encode_options_example =
    decode_options-encode_options options (record no_subscription { filter = codes "a" })
      (omega arith) (omega arith)

subscribe_decode_panics_example :
    subscribe_decode
      (record no_packet { protocol_version = 5 })
      ((encode_uint16 9 ++ 0 ∷ []) ++ (encode_string (codes "a") ++ []))
    ≡ err index_panic
subscribe_decode_panics_example =
    subscribe_decode_panics (record no_packet { protocol_version = 5 }) 9 (codes "a") refl
      (omega arith) (omega arith) valid_a

filters_loop-filters_part_example :
    filters_loop 2
      (record no_packet { protocol_version = 4 })
      (codes "..." ++ filters_part 4 two_filters)
      3
      []
    ≡ some (
        ok (record no_packet {
          protocol_version = 4;
          filters = map (as_read (record no_packet { protocol_version = 4 })) two_filters;
        }))
filters_loop-filters_part_example =
    filters_loop-filters_part two_filters 2 (record no_packet { protocol_version = 4 })
      (codes "...") []
      (
        (valid_a, omega arith, omega arith, omega arith),
        ((valid_b, omega arith, omega arith, omega arith), tt),
      )
      (omega arith)

connect_validate_accepts_example : (connect_validate connecting ≡ code_success) ↔ (
    (protocol_fits connecting.connect.protocol_name connecting.protocol_version ≡ true)
    × (connecting.reserved_bit ≡ 0)
    × (username_fits connecting.connect ≡ true)
    × (password_fits connecting.connect ≡ true)
    × (length connecting.connect.client_identifier ≤ 65535)
    × (will_fits connecting.connect ≡ true))
connect_validate_accepts_example = connect_validate_accepts connecting
