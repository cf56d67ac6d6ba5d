-- ===== src/Packets/Errors.antt =====
-- Errors of the codec, and Go's `(value, error)` pair.
use mqtt_protocol_v.Common.{ℕ}
use mqtt_protocol_v.Packets.Codes.{Code}

-- `index_panic` is the run-time panic of an index out of range.
-- `eof` is `io.EOF`; `invalid_property k pkt` is the error that `Properties.Decode` wraps round
-- `ErrProtocolViolationUnsupportedProperty`.
pub data Error : Type 0 where
  eof : Error
  coded : Code → Error
  invalid_property : ℕ → ℕ → Error
  index_panic : Error

pub data Result {ℓ} (A : Type ℓ) : Type ℓ where
  ok : A → Result A
  err : Error → Result A

infixl 5 ◌>>=◌
abbrev pub ◌>>=◌ {ℓ κ} : {A : Type ℓ} {B : Type κ} → Result A → (A → Result B) → Result B
ok a >>= f = f a
err e >>= f = err e
