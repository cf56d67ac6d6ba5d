-- ===== src/Packets/Codec/Strings.antt =====
-- The fixed-width integers and the length-prefixed strings of the codec, written and read back at
-- any offset of a buffer.
use mqtt_protocol_v.Common.{
  ℕ, zero, suc, ◌+◌, ◌/◌, ◌%◌, ◌^◌, ◌≤◌, ◌<◌, ◌≡◌, refl, [], ◌∷◌, ◌++◌, arith, if◌then◌else◌,
  length, get_or, take, drop, length-append, take-append_le, take-length,
}
use mqtt_protocol_v.Common.Equality.{Bytes}
use mqtt_protocol_v.Packets.Codes.{err_malformed_invalid_utf8}
use mqtt_protocol_v.Packets.Errors.{ok, err, coded, ◌>>=◌}
use mqtt_protocol_v.Packets.Codec.{
  decode_uint16, decode_uint32, decode_bytes, bytes_at, decode_string, checked_string, decode_byte,
  valid_utf8, encode_uint16, encode_uint32, encode_bytes, encode_string,
}

-- the element that stands `i` behind a prefix
pub get_or-append :
    (pre xs : Bytes) (i j d : ℕ) → j ≡ length pre + i → get_or (pre ++ xs) j d ≡ get_or xs i d
get_or-append [] xs i j d e = let e' : j ≡ i = omega arith in rw e'
get_or-append (x ∷ pre) xs i zero d e = absurd (omega arith)
get_or-append (x ∷ pre) xs i (suc j) d e = get_or-append pre xs i j d (omega arith)

module _ (pre : Bytes) (offset : ℕ) (at : offset ≡ length pre) where
  -- A byte is read from where it stands.
  pub decode_byte-append :
      (b : ℕ) (rest : Bytes) → decode_byte (pre ++ (b ∷ rest)) offset ≡ ok (b, offset + 1)
  unfolding decode_byte
  decode_byte-append b rest =
      ground
        (arith, length-append pre (b ∷ rest), get_or-append pre (b ∷ rest) 0 offset 0 (omega arith))

  pub decode_uint16-append :
      (v : ℕ) (rest : Bytes)
      → decode_uint16 (pre ++ (encode_uint16 v ++ rest)) offset ≡ ok (v % 2 ^ 16, offset + 2)
  unfolding decode_uint16 encode_uint16
  decode_uint16-append v rest =
      let tail : Bytes = (v / 256 % 256) ∷ (v % 256) ∷ rest in
      ground (
        arith,
        length-append pre tail,
        get_or-append pre tail 0 offset 0 (omega arith),
        get_or-append pre tail 1 (offset + 1) 0 (omega arith),
      )

  pub decode_uint32-append :
      (v : ℕ) (rest : Bytes)
      → decode_uint32 (pre ++ (encode_uint32 v ++ rest)) offset ≡ ok (v % 2 ^ 32, offset + 4)
  unfolding decode_uint32 encode_uint32
  decode_uint32-append v rest =
      let tail : Bytes =
        (v / 2 ^ 24 % 256) ∷ (v / 2 ^ 16 % 256) ∷ (v / 2 ^ 8 % 256) ∷ (v % 256) ∷ rest in
      ground (
        arith,
        length-append pre tail,
        get_or-append pre tail 0 offset 0 (omega arith),
        get_or-append pre tail 1 (offset + 1) 0 (omega arith),
        get_or-append pre tail 2 (offset + 2) 0 (omega arith),
        get_or-append pre tail 3 (offset + 3) 0 (omega arith),
      )

drop-append : (pre xs : Bytes) (k n : ℕ) → n ≡ length pre + k → drop n (pre ++ xs) ≡ drop k xs
drop-append [] xs k n e = let e' : n ≡ k = omega arith in rw e'
drop-append (x ∷ pre) xs k zero e = absurd (omega arith)
drop-append (x ∷ pre) xs k (suc n) e = drop-append pre xs k n (omega arith)

decode_bytes_lem :
    (buf : Bytes) (offset : ℕ)
    → decode_bytes buf offset ≡ (decode_uint16 buf offset >>= bytes_at buf)
unfolding decode_bytes
decode_bytes_lem buf offset = refl

encode_string-eq-encode_bytes : (val : Bytes) → encode_string val ≡ encode_bytes val
unfolding encode_string encode_bytes
encode_string-eq-encode_bytes val = refl

decode_string_lem :
    (buf : Bytes) (offset : ℕ)
    → decode_string buf offset ≡ (decode_bytes buf offset >>= checked_string)
unfolding decode_string
decode_string_lem buf offset = refl

module _ (pre val rest : Bytes) (offset : ℕ) (at : offset ≡ length pre) where
  bytes_at-append :
      (m : ℕ)
      → m ≤ length val
      → bytes_at (pre ++ (encode_bytes val ++ rest)) (m, offset + 2)
        ≡ ok (take m val, offset + 2 + m)
  unfolding bytes_at encode_bytes
  bytes_at-append m h =
      let n = length val % 2 ^ 16 in
      let tail : Bytes = (n / 256 % 256) ∷ (n % 256) ∷ (val ++ rest) in
      ground (
        arith,
        length-append pre tail,
        length-append val rest,
        drop-append pre tail 2 (offset + 2) (omega arith),
        take-append_le m val rest h,
      )

  length_at :
      decode_uint16 (pre ++ (encode_bytes val ++ rest)) offset
      ≡ ok (length val % 2 ^ 16, offset + 2)
  unfolding encode_bytes
  length_at =
      let n = length val % 2 ^ 16 in
      ground (arith, decode_uint16-append pre offset at n (val ++ rest))

  -- `decodeBytes` reads back what `encodeBytes` wrote, from any offset; of a value of 65536 bytes or
  -- more it returns the first `length % 65536` bytes only.
  pub decode_bytes-encode_bytes :
      decode_bytes (pre ++ (encode_bytes val ++ rest)) offset
      ≡ ok (take (length val % 2 ^ 16) val, offset + 2 + length val % 2 ^ 16)
  decode_bytes-encode_bytes =
      rw (decode_bytes_lem, length_at) (bytes_at-append (length val % 2 ^ 16) (omega arith))

  -- A value of fewer than 65536 bytes comes back whole.
  pub decode_bytes_whole :
      length val < 2 ^ 16
      → decode_bytes (pre ++ (encode_bytes val ++ rest)) offset ≡ ok (val, offset + 2 + length val)
  decode_bytes_whole short =
      let whole : length val % 2 ^ 16 ≡ length val = omega arith in
      rw decode_bytes-encode_bytes (rw (whole, take-length))

  -- Of a text of fewer than 65536 bytes, `decodeString` reads back what `encodeString` wrote where the
  -- text is valid UTF-8 without the zero character, and refuses it otherwise.
  pub decode_string-encode_string :
      length val < 2 ^ 16
      → decode_string (pre ++ (encode_string val ++ rest)) offset ≡ (
          if valid_utf8 val
          then ok (val, offset + 2 + length val)
          else err (coded err_malformed_invalid_utf8))
  unfolding checked_string
  decode_string-encode_string short =
      rw (decode_string_lem, encode_string-eq-encode_bytes, decode_bytes_whole short)
