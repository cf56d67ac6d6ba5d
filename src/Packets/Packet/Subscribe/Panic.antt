-- ===== src/Packets/Packet/Subscribe/Panic.antt =====
-- A SUBSCRIBE of version 5 whose last filter has no options.
use mathlib.Core.List.{append_assoc}
use mqtt_protocol_v.Common.{
  ℕ, zero, suc, ◌+◌, ◌^◌, ◌<◌, ◌≡◌, refl, sym, ap, ◌∙◌, true, false, List, [], ◌∷◌, ◌++◌, ltb, ◌==◌,
  length, drop, arith, length-append,
}
use mqtt_protocol_v.Common.Equality.{Bytes}
use mqtt_protocol_v.Packets.Codes.{err_malformed_topic, err_malformed_packet_id}
use mqtt_protocol_v.Packets.Errors.{Error, ok, err, index_panic}
use mqtt_protocol_v.Packets.Codec.{
  decode_length, decode_uint16, valid_utf8, encode_string, encode_uint16,
}
use mqtt_protocol_v.Packets.Properties.{Properties}
use mqtt_protocol_v.Packets.Properties.Decode
use mqtt_protocol_v.Packets.Packet.{Packet, Subscription}
use mqtt_protocol_v.Packets.Packet.Body.{wrap, read_v5, read_properties, finished}
use mqtt_protocol_v.Packets.Packet.Body.Reads.{
  read_string, read_uint16, drop_prefix, length-encode_string, length-encode_uint16,
}
use mqtt_protocol_v.Packets.Packet.Subscribe.{
  read_options, read_filter, filters_loop, subscribe_decode,
}
use mqtt_protocol_v.Packets.Codec.{decode_length, decode_uint16, decode_uint16}

-- a filter at the very end of the buffer
read_filter_panics :
    (pk : Packet) (pre filter : Bytes) (offset : ℕ)
    → pk.protocol_version ≡ 5
    → offset ≡ length pre
    → length filter < 2 ^ 16
    → valid_utf8 filter ≡ true
    → read_filter pk (pre ++ (encode_string filter ++ [])) offset ≡ err index_panic
unfolding read_filter read_options
read_filter_panics pk pre filter offset version at short valid =
    let outside : ltb (offset + 2 + length filter) (length (pre ++ (encode_string filter ++ [])))
        ≡ false =
      ground (
        arith,
        length-append pre (encode_string filter ++ []),
        length-append (encode_string filter) [],
        length-encode_string filter,
        at,
      ) in
    rw (read_string err_malformed_topic pre [] offset at filter short valid, version)
      (rw outside refl)

-- the length of no properties
no_properties_read :
    (pkt : ℕ) (p : Properties) (rest : Bytes) → read_properties pkt p (0 ∷ rest) ≡ ok (p, 1)
unfolding read_properties Decode.decode decode_length
no_properties_read pkt p rest = refl

-- the first round of the loop fails
loop_fails :
    (fuel : ℕ) (pk : Packet) (buf : Bytes) (offset : ℕ) (filters : List Subscription) (e : Error)
    → 0 < fuel
    → offset < length buf
    → read_filter pk buf offset ≡ err e
    → finished (filters_loop fuel pk buf offset filters) ≡ err e
unfolding filters_loop
loop_fails zero pk buf offset filters e some_fuel inside failed = absurd (omega arith)
loop_fails (suc fuel) pk buf offset filters e some_fuel inside failed =
    let more : ltb offset (length buf) ≡ true = ground arith in rw (more, failed) refl

-- A version 5 SUBSCRIBE of a packet identifier, no properties and one filter without its options
-- byte makes `SubscribeDecode` index past the end of the buffer, which panics; the filter is valid
-- UTF-8 of fewer than 65536 bytes.
pub subscribe_decode_panics :
    (pk : Packet) (id : ℕ) (filter : Bytes)
    → pk.protocol_version ≡ 5
    → id < 2 ^ 16
    → length filter < 2 ^ 16
    → valid_utf8 filter ≡ true
    → subscribe_decode pk ((encode_uint16 id ++ 0 ∷ []) ++ (encode_string filter ++ []))
      ≡ err index_panic
unfolding subscribe_decode read_v5
subscribe_decode_panics pk id filter version small short valid =
    let tail : Bytes = encode_string filter ++ [] in
    let pre : Bytes = encode_uint16 id ++ 0 ∷ [] in
    let buf : Bytes = pre ++ tail in
    let parts : buf ≡ encode_uint16 id ++ (0 ∷ tail) =
      append_assoc (encode_uint16 id) (0 ∷ []) tail in
    let first : wrap err_malformed_packet_id (decode_uint16 buf 0) ≡ ok (id, 2) =
      ap (λ (b : Bytes). wrap err_malformed_packet_id (decode_uint16 b 0)) parts
      ∙ read_uint16 err_malformed_packet_id [] (0 ∷ tail) 0 refl id small in
    let dropped : drop 2 buf ≡ 0 ∷ tail =
      ap (drop 2) parts
      ∙ drop_prefix (encode_uint16 id) (0 ∷ tail) 2 (sym (length-encode_uint16 id)) in
    let five : (pk.protocol_version == 5) ≡ true = ground (arith, version) in
    let size : length pre ≡ 3 =
      omega (arith, length-append (encode_uint16 id) (0 ∷ []), length-encode_uint16 id) in
    let q = record pk { packet_id = id } in
    rw (first, five, dropped, no_properties_read pk.fixed_header.packet_type pk.properties tail)
      (loop_fails (length buf) q buf 3 [] index_panic (omega (arith, length-append pre tail))
        (omega (
          arith,
          length-append pre tail,
          length-append (encode_string filter) [],
          length-encode_string filter,
        ))
        (read_filter_panics q pre filter 3 version (sym size) short valid))
