-- ===== src/Packets/Packet/Publish/RoundTrip.antt =====
-- `PublishDecode` reads what `PublishEncode` writes, in the versions without properties.
use mathlib.Core.List.{append_assoc, append-nil}
use mqtt_protocol_v.Common.{
  ℕ, ◌+◌, ◌^◌, ◌<◌, ◌≡◌, refl, sym, true, false, [], ◌++◌, ltb, ◌==◌, length, arith, Bool-cases,
  inl, inr, if◌then◌else◌, length-append,
}
use mqtt_protocol_v.Common.Equality.{Bytes}
use mqtt_protocol_v.Packets.Codes.{
  err_malformed_topic, err_malformed_packet_id, err_malformed_properties,
}
use mqtt_protocol_v.Packets.Errors.{ok}
use mqtt_protocol_v.Packets.Codec.{valid_utf8, encode_string, encode_uint16}
use mqtt_protocol_v.Packets.Packet.Body.Reads.{
  read_string, read_uint16, read_v5_old, drop_prefix, length-encode_string, length-encode_uint16,
}
use mqtt_protocol_v.Packets.Packet.{Packet}
use mqtt_protocol_v.Packets.Packet.Body.{written_v5}
use mqtt_protocol_v.Packets.Packet.Publish.{publish_head, publish_body, publish_id, publish_decode}

module _ (q : Packet) (topic payload : Bytes) (id : ℕ) (version : (q.protocol_version == 5) ≡ false)
    (valid : valid_utf8 topic ≡ true) (short : length topic < 2 ^ 16) (small : id < 2 ^ 16) where
  -- with an identifier
  reads_id :
      ltb 0 q.fixed_header.qos ≡ true
      → publish_decode q (encode_string topic ++ (encode_uint16 id ++ payload))
        ≡ ok (record q { topic_name = topic; packet_id = id; payload = payload })
  unfolding publish_decode publish_id
  reads_id above =
      let behind : 2 + length topic ≡ length (encode_string topic) =
        sym (length-encode_string topic) in
      rw
        (
          read_string err_malformed_topic [] (encode_uint16 id ++ payload) 0 refl topic short valid,
          above,
          read_uint16 err_malformed_packet_id (encode_string topic) payload (2 + length topic)
              behind id small,
          read_v5_old _ err_malformed_properties
              (encode_string topic ++ (encode_uint16 id ++ payload)) (2 + length topic + 2) version,
        )
        (rw
          (
            sym (append_assoc (encode_string topic) (encode_uint16 id) payload),
            drop_prefix (encode_string topic ++ encode_uint16 id) payload (2 + length topic + 2) (
                omega (
                  arith,
                  length-append (encode_string topic) (encode_uint16 id),
                  length-encode_string topic,
                  length-encode_uint16 id,
                )),
          )
          refl)

  -- without
  reads_no_id :
      ltb 0 q.fixed_header.qos ≡ false
      → publish_decode q (encode_string topic ++ payload)
        ≡ ok (record q { topic_name = topic; payload = payload })
  unfolding publish_decode publish_id
  reads_no_id none_there =
      rw
        (
          read_string err_malformed_topic [] payload 0 refl topic short valid,
          none_there,
          read_v5_old _ err_malformed_properties (encode_string topic ++ payload) (2 + length topic)
              version,
        )
        (rw
          (drop_prefix (encode_string topic) payload (2 + length topic)
            (sym (length-encode_string topic)))
          refl)

-- What `PublishEncode` writes behind the fixed header for a version other than 5, `PublishDecode`
-- reads back: the topic, the payload, and the packet identifier where the qos is above 0. The topic
-- is valid UTF-8 of fewer than 65536 bytes, and the reading packet has the header's qos and version.
pub publish_decode-publish_body :
    (pk q : Packet)
    → (pk.protocol_version == 5) ≡ false
    → q.protocol_version ≡ pk.protocol_version
    → q.fixed_header.qos ≡ pk.fixed_header.qos
    → valid_utf8 pk.topic_name ≡ true
    → length pk.topic_name < 2 ^ 16
    → pk.packet_id < 2 ^ 16
    → publish_decode q (publish_body pk)
      ≡ ok (record q {
        topic_name = pk.topic_name;
        packet_id = if ltb 0 pk.fixed_header.qos then pk.packet_id else q.packet_id;
        payload = pk.payload;
      })
unfolding publish_body publish_head written_v5
publish_decode-publish_body pk q version same qos valid short id =
    let old : (q.protocol_version == 5) ≡ false = rw same version in
    elim (Bool-cases (ltb 0 pk.fixed_header.qos)) [
      | inl above ↦
          rw
            (version, above, append-nil (encode_string pk.topic_name ++ encode_uint16 pk.packet_id))
            (rw (append_assoc (encode_string pk.topic_name) (encode_uint16 pk.packet_id) pk.payload)
              (reads_id q pk.topic_name pk.payload pk.packet_id old valid short id (rw qos above)))
      | inr below ↦
          rw
            (
              version,
              below,
              append-nil (encode_string pk.topic_name),
              append-nil (encode_string pk.topic_name),
            )
            (reads_no_id q pk.topic_name pk.payload pk.packet_id old valid short id (rw qos below))
    ]
