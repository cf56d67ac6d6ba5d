-- ===== src/Packets/Properties/Decode/Total.antt =====
-- `Properties.Decode` returns on every input, and refuses keys that its packet may not carry.
use mqtt_protocol_v.Common.{
  ℕ, zero, suc, ◌+◌, ◌≤◌, ◌<◌, ◌≡◌, refl, false, Option, some, ◌∷◌, ◌++◌, ltb, ◌==◌, drop, arith,
  Bool-cases, Option-cases, inl, inr,
}
use mqtt_protocol_v.Common.Equality.{Bytes, nat_eq}
use mqtt_protocol_v.Common.Map
use mqtt_protocol_v.Packets.Errors.{invalid_property, Result, ok, err}
use mqtt_protocol_v.Packets.Codec.{
  decode_byte, decode_uint16, decode_uint32, decode_string, decode_bytes, decode_length,
  encode_length, LengthRead, done, failed,
}
use mqtt_protocol_v.Packets.Codec.Advance.{
  Advances, then-Advances, earlier, byte-Advances, uint16-Advances, uint32-Advances, bytes-Advances,
  string-Advances,
}
use mqtt_protocol_v.Packets.Codec.Length.{decode_length-encode_length}
use mqtt_protocol_v.Packets.Properties.{Properties}
use mqtt_protocol_v.Packets.Properties.Keys.{can_encode}
use mqtt_protocol_v.Packets.Properties.Decode.{
  Field, byte_field, uint16_field, uint32_field, string_field, bytes_field, identifier_field,
  user_field, fields, read_identifier, read_field, read_case, read_value, decode_one, decode_loop,
  counted, decode_body, decode,
}

identifier-Advances :
    (p : Properties) (offset : ℕ) (r : LengthRead) → Advances offset (read_identifier p offset r)
unfolding read_identifier
identifier-Advances p offset (failed bu e) = tt
identifier-Advances p offset (done n bu rest) = omega arith

field-Advances :
    (bt : Bytes) (offset : ℕ) (p : Properties) (f : Field)
    → Advances offset (read_field bt offset p f)
unfolding read_field
field-Advances bt offset p (byte_field set) =
    then-Advances offset (decode_byte bt offset) _
      (earlier offset (offset + 1) (decode_byte bt offset) (omega arith) (byte-Advances bt offset))
      (λ v next h. h)
field-Advances bt offset p (uint16_field set) =
    then-Advances offset (decode_uint16 bt offset) _ (uint16-Advances bt offset) (λ v next h. h)
field-Advances bt offset p (uint32_field set) =
    then-Advances offset (decode_uint32 bt offset) _ (uint32-Advances bt offset) (λ v next h. h)
field-Advances bt offset p (string_field set) =
    then-Advances offset (decode_string bt offset) _ (string-Advances bt offset) (λ v next h. h)
field-Advances bt offset p (bytes_field set) =
    then-Advances offset (decode_bytes bt offset) _ (bytes-Advances bt offset) (λ v next h. h)
field-Advances bt offset p identifier_field =
    identifier-Advances p offset (decode_length (drop offset bt))
field-Advances bt offset p user_field =
    then-Advances offset (decode_string bt offset) _ (string-Advances bt offset) (λ k middle h.
      then-Advances offset (decode_string bt middle) _
        (earlier offset middle (decode_string bt middle) h (string-Advances bt middle))
        (λ v next h'. h'))

value-Advances :
    (pkt : ℕ) (bt : Bytes) (p : Properties) (k next : ℕ)
    → Advances next (read_value pkt bt p (k, next))
unfolding read_value read_case
value-Advances pkt bt p k next = elim (Bool-cases (can_encode pkt k)) [
  | inr prohibited ↦ rw prohibited tt
  | inl allowed ↦ elim (Option-cases (Map.lookup k fields)) [
    | inl none_such ↦ rw (allowed, none_such) (omega arith)
    | inr (f, found) ↦ rw (allowed, found) (field-Advances bt next p f)
  ]
]

one-Advances :
    (pkt : ℕ) (bt : Bytes) (offset : ℕ) (p : Properties)
    → Advances (offset + 1) (decode_one pkt bt offset p)
unfolding decode_one
one-Advances pkt bt offset p =
    then-Advances (offset + 1) (decode_byte bt offset) (read_value pkt bt p)
      (byte-Advances bt offset)
      (λ k next h.
        earlier (offset + 1) next (read_value pkt bt p (k, next)) h
          (value-Advances pkt bt p k next))

round_total :
    (fuel pkt : ℕ) (bt : Bytes) (n offset : ℕ) (r : Result (Properties × ℕ))
    → Advances (offset + 1) r
    → ((p : Properties) (next : ℕ)
        → offset + 1 ≤ next
        → (s : Result Properties) × (decode_loop fuel pkt bt n next p ≡ some s))
    → (s : Result Properties) × ((elim r [
      | err e ↦ some (err e)
      | ok (p', next) ↦ decode_loop fuel pkt bt n next p'
    ])
        ≡ some s)
round_total fuel pkt bt n offset (err e) h later = (err e, refl)
round_total fuel pkt bt n offset (ok (p, next)) h later = later p next h

loop_total :
    (fuel pkt : ℕ) (bt : Bytes) (n offset : ℕ) (p : Properties)
    → n ≤ offset + fuel
    → (r : Result Properties) × (decode_loop fuel pkt bt n offset p ≡ some r)
unfolding decode_loop
loop_total zero pkt bt n offset p h = (ok p, ground arith)
loop_total (suc fuel) pkt bt n offset p h = elim (Bool-cases (ltb offset n)) [
  | inr ended ↦ rw (ended, decode_loop) (ok p, refl)
  | inl more ↦ rw more (
      round_total fuel pkt bt n offset (decode_one pkt bt offset p) (one-Advances pkt bt offset p)
        (λ p' next g. loop_total fuel pkt bt n next p' (omega arith)))
]

-- `Decode` returns on every input: a round of the loop for each byte is enough, since each round
-- takes at least the byte of its key.
pub decode_total :
    (pkt : ℕ) (p : Properties) (b : Bytes)
    → (r : Result (Properties × ℕ)) × (decode pkt p b ≡ some r)
unfolding decode decode_body
decode_total pkt p b = body (decode_length b)
  where
    body : (l : LengthRead) → (r : Result (Properties × ℕ)) × (decode_body pkt p l ≡ some r)
    body (failed bu e) = (err e, refl)
    body (done n bu bt) = elim (Bool-cases (n == 0)) [
      | inl empty ↦ rw empty (_, refl)
      | inr some_bytes ↦ rw some_bytes (finished (n + bu) (loop_total n pkt bt n 0 p (omega arith)))
    ]
      where
        finished :
            {o : Option (Result Properties)} (m : ℕ)
            → (r : Result Properties) × (o ≡ some r)
            → (s : Result (Properties × ℕ)) × (counted m o ≡ some s)
        finished m (err e, returned) = rw returned (err e, refl)
        finished m (ok q, returned) = rw returned (ok (q, m), refl)

one_refused :
    (pkt : ℕ) (p : Properties) (k : ℕ) (rest : Bytes)
    → can_encode pkt k ≡ false
    → decode_one pkt (k ∷ rest) 0 p ≡ err (invalid_property k pkt)
unfolding decode_one decode_byte read_value
one_refused pkt p k rest prohibited = ground (arith, prohibited)

loop_refused :
    (pkt : ℕ) (p : Properties) (n k : ℕ) (rest : Bytes)
    → can_encode pkt k ≡ false
    → decode_loop (suc n) pkt (k ∷ rest) (suc n) 0 p ≡ some (err (invalid_property k pkt))
unfolding decode_loop
loop_refused pkt p n k rest prohibited =
    rw (one_refused pkt p k rest prohibited, decode_loop) (ground arith)

-- Properties of any length below 268435456 whose first key the packet may not carry are refused, by
-- the error that names the key and the packet type.
pub decode_prohibited :
    (pkt : ℕ) (p : Properties) (n k : ℕ) (rest : Bytes)
    → 0 < n
    → n < 268435456
    → can_encode pkt k ≡ false
    → decode pkt p (encode_length n ++ k ∷ rest) ≡ some (err (invalid_property k pkt))
unfolding decode decode_body
decode_prohibited pkt p zero k rest positive short prohibited = absurd (omega arith)
decode_prohibited pkt p (suc n) k rest positive short prohibited =
    rw (decode_length-encode_length (suc n) (k ∷ rest) (omega arith))
      (rw (loop_refused pkt p n k rest prohibited) (ground arith))
