-- ===== src/Packets/Codec/Limits.antt =====
-- `DecodeLength` on any input: its range, what it consumes, and what it accepts beyond the format.
use mathlib.Core.List.{append-nil}
use mqtt_protocol_v.Common.{
  ℕ, zero, suc, ◌+◌, ◌%◌, ◌*◌, ◌^◌, ◌≤◌, ◌≡◌, ◌≢◌, refl, [], ◌∷◌, ◌++◌, arith, length, replicate,
  length-append, bit_or, bit_and,
}
use mqtt_protocol_v.Common.Equality.{Bytes}
use mqtt_protocol_v.Packets.Errors.{index_panic, Error, eof, coded, invalid_property}
use mqtt_protocol_v.Packets.Codec.{
  encode_length, LengthRead, done, failed, decode_length_loop, decode_length,
}
use mqtt_protocol_v.Packets.Codec.Length.{decode_length-encode_length}

loop_bounds :
    (src : Bytes) (value multiplier bu v bu' : ℕ) (rest : Bytes)
    → decode_length_loop src value multiplier bu ≡ done v bu' rest
    → (v ≤ 268435455) × (bu' + length rest + 1 ≡ bu + length src)
unfolding decode_length_loop
loop_bounds [] value multiplier bu v bu' rest e = cc
loop_bounds (b ∷ bs) value multiplier bu v bu' rest e =
    let value' = bit_or value (bit_and b 127 * 2 ^ multiplier % 2 ^ 32) in
    ground (arith, loop_bounds bs value' ((multiplier + 7) % 2 ^ 32) (bu + 1) v bu' rest)

-- Whatever the input, a length that `DecodeLength` returns is at most 268435455, and the count
-- that it reports is the number of bytes it took off the reader.
pub decode_length_bounds :
    (src : Bytes) (v bu : ℕ) (rest : Bytes)
    → decode_length src ≡ done v bu rest
    → (v ≤ 268435455) × (bu + length rest ≡ length src)
unfolding decode_length
decode_length_bounds src v bu rest e = ground (arith, loop_bounds src 0 0 1 v bu rest)

loop-append_done :
    (src more : Bytes) (value multiplier bu v bu' : ℕ) (rest : Bytes)
    → decode_length_loop src value multiplier bu ≡ done v bu' rest
    → decode_length_loop (src ++ more) value multiplier bu ≡ done v bu' (rest ++ more)
unfolding decode_length_loop
loop-append_done [] more value multiplier bu v bu' rest e = cc
loop-append_done (b ∷ bs) more value multiplier bu v bu' rest e =
    let value' = bit_or value (bit_and b 127 * 2 ^ multiplier % 2 ^ 32) in
    ground (arith, loop-append_done bs more value' ((multiplier + 7) % 2 ^ 32) (bu + 1) v bu' rest)

loop-append_failed :
    (src more : Bytes) (value multiplier bu bu' : ℕ) (e : Error)
    → e ≢ eof
    → decode_length_loop src value multiplier bu ≡ failed bu' e
    → decode_length_loop (src ++ more) value multiplier bu ≡ failed bu' e
unfolding decode_length_loop
loop-append_failed [] more value multiplier bu bu' e real h = ground arith
loop-append_failed (b ∷ bs) more value multiplier bu bu' e real h =
    let value' = bit_or value (bit_and b 127 * 2 ^ multiplier % 2 ^ 32) in
    ground
      (arith, loop-append_failed bs more value' ((multiplier + 7) % 2 ^ 32) (bu + 1) bu' e real)

pub decode_length-append_done :
    (src more : Bytes) (v bu : ℕ) (rest : Bytes)
    → decode_length src ≡ done v bu rest
    → decode_length (src ++ more) ≡ done v bu (rest ++ more)
unfolding decode_length
decode_length-append_done src more v bu rest e = loop-append_done src more 0 0 1 v bu rest e

-- every prefix of a readable input that is not enough for the whole gives `eof`
ends_early :
    (front more : Bytes) (v bu bu' : ℕ) (e : Error)
    → decode_length (front ++ more) ≡ done v bu []
    → decode_length front ≡ failed bu' e
    → e ≡ eof
unfolding decode_length
ends_early front more v bu bu' eof whole h = refl
ends_early front more v bu bu' (coded c) whole h =
    cc (loop-append_failed front more 0 0 1 bu' (coded c) (λ p. cc) h)
ends_early front more v bu bu' (invalid_property k p) whole h =
    cc (loop-append_failed front more 0 0 1 bu' (invalid_property k p) (λ q. cc) h)
ends_early front more v bu bu' index_panic whole h =
    cc (loop-append_failed front more 0 0 1 bu' index_panic (λ q. cc) h)

-- `DecodeLength` answers `io.EOF` on every proper prefix of what `encodeLength` wrote for a length of
-- at most 268435455.
pub decode_length_truncated :
    (n b : ℕ) (front back : Bytes)
    → n ≤ 268435455
    → encode_length n ≡ front ++ (b ∷ back)
    → (bu : ℕ) × (decode_length front ≡ failed bu eof)
decode_length_truncated n b front back h e = split (decode_length front) refl
  where
    whole : decode_length (front ++ (b ∷ back)) ≡ done n (length (front ++ (b ∷ back))) []
    whole = rw (append-nil, e) at (decode_length-encode_length n [] h)

    split :
        (r : LengthRead)
        → decode_length front ≡ r
        → (bu : ℕ) × (decode_length front ≡ failed bu eof)
    split (failed bu x) p =
        (bu, rw (ends_early front (b ∷ back) n (length (front ++ (b ∷ back))) bu x whole p) at p)
    split (done v bu rest) p = ground (
      arith,
      whole,
      decode_length-append_done front (b ∷ back) v bu rest p,
      length-append rest (b ∷ back),
    )

loop_padded :
    (k multiplier bu : ℕ) (rest : Bytes)
    → decode_length_loop (replicate k 0x80 ++ (0 ∷ rest)) 0 multiplier bu ≡ done 0 (bu + k) rest
unfolding decode_length_loop
loop_padded zero multiplier bu rest = ground arith
loop_padded (suc k) multiplier bu rest =
    ground (arith, loop_padded k ((multiplier + 7) % 2 ^ 32) (bu + 1) rest)

-- Padding: any number of bytes 0x80 before a zero byte is accepted as the length 0, far past the
-- four bytes that the format allows.
pub decode_length_padded :
    (k : ℕ) (rest : Bytes) → decode_length (replicate k 0x80 ++ (0 ∷ rest)) ≡ done 0 (k + 1) rest
unfolding decode_length
decode_length_padded k rest = ground (arith, loop_padded k 0 1 rest)
