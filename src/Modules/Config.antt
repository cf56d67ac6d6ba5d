-- ===== src/Modules/Config.antt =====
-- The argument of a hook's `Init`, and the defaults that it fills in.
use mqtt_protocol_v.Common.{ℕ, zero, suc}
use mqtt_protocol_v.Common.Int.{ℤ, pos, negsuc}

-- `nil`, a value of another type, or a pointer to the hook's own configuration.
pub data InitArg {ℓ} (A : Type ℓ) : Type ℓ where
  nil : InitArg A
  wrong_type : InitArg A
  given : A → InitArg A

-- `if v <= 0 { v = default }`
unfoldable pub positive_or : ℤ → ℕ → ℕ
positive_or (pos zero) default = default
positive_or (pos (suc n)) default = suc n
positive_or (negsuc n) default = default
