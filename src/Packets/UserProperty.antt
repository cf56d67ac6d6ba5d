-- ===== src/Packets/UserProperty.antt =====
-- The key and value of a user property.
use mqtt_protocol_v.Common.Equality.{Bytes}

-- `UserProperty` of broker/packets/properties.go.
pub record UserProperty : Type 0 where
  pub key : Bytes
  pub val : Bytes
