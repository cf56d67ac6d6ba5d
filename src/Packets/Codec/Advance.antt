-- ===== src/Packets/Codec/Advance.antt =====
-- The readers of the codec never go back.
use mqtt_protocol_v.Common.{ℕ, ◌+◌, ◌≤◌, arith, ltb, leb, length, Bool-cases, inl, inr}
use mqtt_protocol_v.Common.Equality.{Bytes}
use mqtt_protocol_v.Packets.Errors.{Result, ok, err, ◌>>=◌}
use mqtt_protocol_v.Packets.Codec.{
  valid_utf8, bytes_at, checked_string, decode_byte, decode_uint16, decode_uint32, decode_string,
  decode_bytes,
}

-- Where a read succeeds, its offset has not gone back.
abbrev pub Advances : {A : Type 0} → ℕ → Result (A × ℕ) → Type 0
Advances offset (err e) = Unit
Advances offset (ok (a, next)) = offset ≤ next

pub then-Advances :
    {A B : Type 0} (offset : ℕ) (r : Result (A × ℕ)) (f : A × ℕ → Result (B × ℕ))
    → Advances offset r
    → ((a : A) (middle : ℕ) → offset ≤ middle → Advances offset (f (a, middle)))
    → Advances offset (r >>= f)
then-Advances offset (err e) f h g = tt
then-Advances offset (ok (a, middle)) f h g = g a middle h

pub earlier : {A : Type 0} (a b : ℕ) (r : Result (A × ℕ)) → a ≤ b → Advances b r → Advances a r
earlier a b (err e) h k = tt
earlier a b (ok (x, next)) h k = omega arith

pub byte-Advances : (bt : Bytes) (offset : ℕ) → Advances (offset + 1) (decode_byte bt offset)
unfolding decode_byte
byte-Advances bt offset = elim (Bool-cases (leb (length bt) offset)) [
  | inl outside ↦ rw outside tt
  | inr inside ↦ rw inside (omega arith)
]

pub uint16-Advances : (bt : Bytes) (offset : ℕ) → Advances offset (decode_uint16 bt offset)
unfolding decode_uint16
uint16-Advances bt offset = elim (Bool-cases (ltb (length bt) (offset + 2))) [
  | inl outside ↦ rw outside tt
  | inr inside ↦ rw inside (omega arith)
]

pub uint32-Advances : (bt : Bytes) (offset : ℕ) → Advances offset (decode_uint32 bt offset)
unfolding decode_uint32
uint32-Advances bt offset = elim (Bool-cases (ltb (length bt) (offset + 4))) [
  | inl outside ↦ rw outside tt
  | inr inside ↦ rw inside (omega arith)
]

pub bytes-Advances : (bt : Bytes) (offset : ℕ) → Advances offset (decode_bytes bt offset)
unfolding decode_bytes bytes_at
bytes-Advances bt offset =
    then-Advances offset (decode_uint16 bt offset) (bytes_at bt) (uint16-Advances bt offset)
      (λ len next h. elim (Bool-cases (ltb (length bt) (next + len))) [
        | inl outside ↦ rw outside tt
        | inr inside ↦ rw inside (omega arith)
      ])

pub string-Advances : (bt : Bytes) (offset : ℕ) → Advances offset (decode_string bt offset)
unfolding decode_string checked_string
string-Advances bt offset =
    then-Advances offset (decode_bytes bt offset) checked_string (bytes-Advances bt offset)
      (λ b next h. elim (Bool-cases (valid_utf8 b)) [ inl good ↦ rw good h | inr bad ↦ rw bad tt ])

uint16_progress : (bt : Bytes) (offset : ℕ) → Advances (offset + 1) (decode_uint16 bt offset)
unfolding decode_uint16
uint16_progress bt offset = elim (Bool-cases (ltb (length bt) (offset + 2))) [
  | inl outside ↦ rw outside tt
  | inr inside ↦ rw inside (omega arith)
]

-- A string takes at least a byte.
pub string_progress : (bt : Bytes) (offset : ℕ) → Advances (offset + 1) (decode_string bt offset)
unfolding decode_string checked_string decode_bytes bytes_at
string_progress bt offset =
    then-Advances (offset + 1) (decode_bytes bt offset) checked_string
      (then-Advances (offset + 1) (decode_uint16 bt offset) (bytes_at bt)
        (uint16_progress bt offset)
        (λ len next h. elim (Bool-cases (ltb (length bt) (next + len))) [
          | inl outside ↦ rw outside tt
          | inr inside ↦ rw inside (omega arith)
        ]))
      (λ b next h. elim (Bool-cases (valid_utf8 b)) [ inl good ↦ rw good h | inr bad ↦ rw bad tt ])
