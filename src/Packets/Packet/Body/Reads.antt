-- ===== src/Packets/Packet/Body/Reads.antt =====
-- The readers of the codec, under a wrapped error, on a buffer that holds at the offset what the
-- matching writer wrote.
use mqtt_protocol_v.Common.{
  ℕ, zero, suc, ◌+◌, ◌%◌, ◌^◌, ◌<◌, ◌≡◌, refl, true, false, [], ◌∷◌, ◌++◌, ◌==◌, length, drop,
  arith,
}
use mqtt_protocol_v.Common.Equality.{Bytes}
use mqtt_protocol_v.Packets.Codes.{Code}
use mqtt_protocol_v.Packets.Errors.{ok}
use mqtt_protocol_v.Packets.Codec.{
  valid_utf8, encode_string, encode_bytes, encode_uint16, decode_string, decode_bytes,
  decode_uint16, decode_byte,
}
use mqtt_protocol_v.Packets.Codec.Strings.{
  decode_string-encode_string, decode_bytes_whole, decode_uint16-append, decode_byte-append,
}
use mqtt_protocol_v.Packets.Packet.{Packet}
use mqtt_protocol_v.Packets.Packet.Body.{wrap, read_v5}

pub length-encode_string : (val : Bytes) → length (encode_string val) ≡ 2 + length val
unfolding encode_string encode_uint16
length-encode_string val = omega arith

pub length-encode_uint16 : (v : ℕ) → length (encode_uint16 v) ≡ 2
unfolding encode_uint16
length-encode_uint16 v = omega arith

module _ (c : Code) (pre rest : Bytes) (offset : ℕ) (at : offset ≡ length pre) where
  pub read_string :
      (val : Bytes)
      → length val < 2 ^ 16
      → valid_utf8 val ≡ true
      → wrap c (decode_string (pre ++ (encode_string val ++ rest)) offset)
        ≡ ok (val, offset + 2 + length val)
  read_string val short valid =
      rw (decode_string-encode_string pre val rest offset at short, valid) refl

  pub read_bytes :
      (val : Bytes)
      → length val < 2 ^ 16
      → wrap c (decode_bytes (pre ++ (encode_bytes val ++ rest)) offset)
        ≡ ok (val, offset + 2 + length val)
  read_bytes val short = rw (decode_bytes_whole pre val rest offset at short) refl

  pub read_uint16 :
      (v : ℕ)
      → v < 2 ^ 16
      → wrap c (decode_uint16 (pre ++ (encode_uint16 v ++ rest)) offset) ≡ ok (v, offset + 2)
  read_uint16 v small =
      let whole : v % 2 ^ 16 ≡ v = omega arith in
      rw (decode_uint16-append pre offset at v rest, whole) refl

  pub read_byte : (b : ℕ) → wrap c (decode_byte (pre ++ (b ∷ rest)) offset) ≡ ok (b, offset + 1)
  read_byte b = rw (decode_byte-append pre offset at b rest) refl

-- a packet that is not of version 5 has no properties
pub read_v5_old :
    (q : Packet) (c : Code) (buf : Bytes) (offset : ℕ)
    → (q.protocol_version == 5) ≡ false
    → read_v5 q c buf offset ≡ ok (q, offset)
unfolding read_v5
read_v5_old q c buf offset version = rw version refl

pub drop_prefix :
    (pre rest : Bytes) (offset : ℕ) → offset ≡ length pre → drop offset (pre ++ rest) ≡ rest
drop_prefix [] rest zero at = refl
drop_prefix [] rest (suc n) at = absurd (omega arith)
drop_prefix (b ∷ pre) rest zero at = absurd (omega arith)
drop_prefix (b ∷ pre) rest (suc n) at = drop_prefix pre rest n (omega arith)
