-- ===== src/Packets/Codec.antt =====
-- broker/packets/codec.go. A byte slice, and what a reader or a buffer still holds, is a list of
-- numbers below 256; an offset is a Go `int` that never passes the length of a buffer.
mod Utf8
pub mod Strings
pub mod Length
pub mod Limits
pub mod Advance
mod Runs
use mathlib.Core.Logic.{dite}
use mathlib.Core.WellFounded.{Acc, WellFounded}
use native.Mathlib.Decide.{dec_lt}
use mqtt_protocol_v.Common.{
  ℕ, zero, suc, ◌+◌, ◌*◌, ◌/◌, ◌%◌, ◌^◌, ◌<◌, bit_and, bit_or, Bool, true, false, List, [], ◌∷◌,
  ◌++◌, not, ◌&&◌, arith, ltb, leb, ◌==◌, if◌then◌else◌, length, get_or, take, drop, lt_wf,
}
use mqtt_protocol_v.Common.Equality.{Bytes}
use mqtt_protocol_v.Packets.Codes.{
  err_malformed_offset_uint_out_of_range, err_malformed_offset_bytes_out_of_range,
  err_malformed_offset_byte_out_of_range, err_malformed_offset_bool_out_of_range,
  err_malformed_invalid_utf8, err_malformed_variable_byte_integer,
}
use mqtt_protocol_v.Packets.Errors.{Error, eof, coded, Result, ok, err, ◌>>=◌}
unfoldable pub use Utf8.{utf8_valid}

-- `decodeUint16`
unfoldable pub decode_uint16 : Bytes → ℕ → Result (ℕ × ℕ)
decode_uint16 buf offset =
    if ltb (length buf) (offset + 2)
    then err (coded err_malformed_offset_uint_out_of_range)
    else ok (get_or buf offset 0 * 256 + get_or buf (offset + 1) 0, offset + 2)

-- `decodeUint32`
unfoldable pub decode_uint32 : Bytes → ℕ → Result (ℕ × ℕ)
decode_uint32 buf offset =
    if ltb (length buf) (offset + 4)
    then err (coded err_malformed_offset_uint_out_of_range)
    else ok (
      get_or buf offset 0 * 2 ^ 24
          + get_or buf (offset + 1) 0 * 2 ^ 16
          + get_or buf (offset + 2) 0 * 2 ^ 8
          + get_or buf (offset + 3) 0,
      offset + 4,
    )

-- `buf[from : from+len]`
abbrev slice : Bytes → ℕ → ℕ → Bytes
slice buf from len = take len (drop from buf)

-- the second half of `decodeBytes`
bytes_at : Bytes → ℕ × ℕ → Result (Bytes × ℕ)
bytes_at buf (len, next) =
    if ltb (length buf) (next + len)
    then err (coded err_malformed_offset_bytes_out_of_range)
    else ok (slice buf next len, next + len)

-- `decodeBytes`
unfoldable pub decode_bytes : Bytes → ℕ → Result (Bytes × ℕ)
unfolding bytes_at decode_uint16
decode_bytes buf offset = decode_uint16 buf offset >>= bytes_at buf

has_zero : Bytes → Bool
has_zero [] = false
has_zero (b ∷ bs) = if b == 0 then true else has_zero bs

-- `validUTF8`
unfoldable pub valid_utf8 : Bytes → Bool
unfolding has_zero utf8_valid
valid_utf8 b = utf8_valid b && not (has_zero b)

-- the test that `decodeString` makes of the bytes
checked_string : Bytes × ℕ → Result (Bytes × ℕ)
unfolding valid_utf8
checked_string (b, n) = if valid_utf8 b then ok (b, n) else err (coded err_malformed_invalid_utf8)

-- `decodeString`
unfoldable pub decode_string : Bytes → ℕ → Result (Bytes × ℕ)
unfolding decode_bytes checked_string
decode_string buf offset = decode_bytes buf offset >>= checked_string

-- `decodeByte`
unfoldable pub decode_byte : Bytes → ℕ → Result (ℕ × ℕ)
decode_byte buf offset =
    if leb (length buf) offset
    then err (coded err_malformed_offset_byte_out_of_range)
    else ok (get_or buf offset 0, offset + 1)

-- `decodeByteBool`
unfoldable pub decode_byte_bool : Bytes → ℕ → Result (Bool × ℕ)
decode_byte_bool buf offset =
    if leb (length buf) offset
    then err (coded err_malformed_offset_bool_out_of_range)
    else ok (ltb 0 (bit_and 1 (get_or buf offset 0)), offset + 1)

-- `encodeBool`
unfoldable pub encode_bool : Bool → ℕ
encode_bool b = if b then 1 else 0

-- `encodeUint16`
unfoldable pub encode_uint16 : ℕ → Bytes
encode_uint16 val = (val / 256 % 256) ∷ (val % 256) ∷ []

-- `encodeUint32`
unfoldable pub encode_uint32 : ℕ → Bytes
encode_uint32 val =
    (val / 2 ^ 24 % 256) ∷ (val / 2 ^ 16 % 256) ∷ (val / 2 ^ 8 % 256) ∷ (val % 256) ∷ []

-- `encodeBytes`: the length is cut to a `uint16`.
unfoldable pub encode_bytes : Bytes → Bytes
unfolding encode_uint16
encode_bytes val = encode_uint16 (length val % 2 ^ 16) ++ val

-- `encodeString`: the length is cut to a `uint16`.
unfoldable pub encode_string : Bytes → Bytes
unfolding encode_uint16
encode_string val = encode_uint16 (length val % 2 ^ 16) ++ val

pub length_shrinks : (n : ℕ) → 0 < n / 128 → n / 128 < n
length_shrinks n h = omega arith

-- The loop of `encodeLength`. `length` is an `int64` that is not negative.
encode_length_loop : (n : ℕ) → Acc ◌<◌ n → Bytes
encode_length_loop n (Acc.intro _ smaller) =
    dite (dec_lt 0 (n / 128))
      (λ more.
        bit_or (n % 128) 0x80 ∷ encode_length_loop (n / 128) (smaller _ (length_shrinks n more)))
      (λ _. (n % 128) ∷ [])

-- `encodeLength`: the bytes that it writes.
unfoldable pub encode_length : ℕ → Bytes
unfolding encode_length_loop lt_wf dec_lt
encode_length n = encode_length_loop n (lt_wf.apply n)

-- `DecodeLength`'s results: the value, the bytes used, and what the reader still holds; or the
-- bytes used and the error.
pub data LengthRead : Type 0 where
  done : ℕ → ℕ → Bytes → LengthRead
  failed : ℕ → Error → LengthRead

-- The loop of `DecodeLength`. `value` and `multiplier` are `uint32`.
unfoldable pub decode_length_loop : Bytes → ℕ → ℕ → ℕ → LengthRead
decode_length_loop [] value multiplier bu = failed bu eof
decode_length_loop (eb ∷ bs) value multiplier bu =
    let value' = bit_or value (bit_and eb 127 * 2 ^ multiplier % 2 ^ 32) in
    let more = decode_length_loop bs value' ((multiplier + 7) % 2 ^ 32) (bu + 1) in
    if ltb 268435455 value'
    then failed bu (coded err_malformed_variable_byte_integer)
    else if bit_and eb 128 == 0
    then done value' bu bs
    else more

-- `DecodeLength`
unfoldable pub decode_length : Bytes → LengthRead
unfolding decode_length_loop
decode_length b = decode_length_loop b 0 0 1
