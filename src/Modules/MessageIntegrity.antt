-- ===== src/Modules/MessageIntegrity.antt =====
-- broker/modules/security/message_integrity.go: signatures on PUBLISH packets. Parameters stand for
-- HMAC-SHA256 (`hmac secret message`) and for base64 decoding.
pub mod Verdict
mod Runs
use mqtt_protocol_v.Common.{
  ℕ, ◌+◌, Bool, true, false, Option, none, some, List, [], ◌∷◌, ◌++◌, leb, ◌&&◌, not, length, take,
  if◌then◌else◌,
}
use mqtt_protocol_v.Common.Equality.{Bytes, bytes_eq, codes}
use mqtt_protocol_v.Packets.Packet.{Packet}
use mqtt_protocol_v.Packets.UserProperty.{UserProperty}

-- `MessageIntegrityConfig`
pub record IntegrityConfig : Type 0 where
  pub require_signature : Bool
  pub verify_signature : Bool
  pub shared_secret : Bytes

-- what `Init` sets where no configuration is given
abbrev pub default_config : IntegrityConfig
default_config = record { require_signature = true; verify_signature = false; shared_secret = [] }

-- `MessageIntegrityHook`; wrapping of the counters is left out.
pub record IntegrityHook : Type 0 where
  pub config : IntegrityConfig
  pub packets_checked : ℕ
  pub packets_dropped : ℕ
  pub violation_count : ℕ

abbrev pub signature_key : Bytes
signature_key = codes "integrity-signature"

-- The client id of the latency probe.
unfoldable pub is_probe : Bytes → Bool
is_probe id = leb 5 (length id) && bytes_eq (take 5 id) (codes "probe")

-- the value of the first signature property
unfoldable pub signature_of : List UserProperty → Option Bytes
signature_of [] = none
signature_of (p ∷ ps) = if bytes_eq p.key signature_key then some p.val else signature_of ps

-- `recordViolation`
record_violation : IntegrityHook → IntegrityHook
record_violation h = record h {
  packets_dropped = h.packets_dropped + 1;
  violation_count = h.violation_count + 1;
}

same_mac : Option Bytes → Bytes → Bool
same_mac none expected = false
same_mac (some provided) expected = bytes_eq provided expected

module _ (hmac : Bytes → Bytes → Bytes) (decode64 : Bytes → Option Bytes) where
  -- the comparison of the provided with the expected MAC
  unfoldable pub mac_matches : Bytes → Packet → Bytes → Bool
  unfolding same_mac
  mac_matches secret pk val = same_mac (decode64 val) (hmac secret (pk.topic_name ++ pk.payload))

  check_signature : IntegrityHook → Packet → Option Bytes → IntegrityHook × Bool
  unfolding mac_matches record_violation
  check_signature h pk none =
      if h.config.require_signature then (record_violation h, false) else (h, true)
  check_signature h pk (some val) =
      if h.config.verify_signature && not (mac_matches h.config.shared_secret pk val)
      then (record_violation h, false)
      else (h, true)

  -- `OnPublish`: the hook afterwards, and whether the packet passes (`false` is `ErrRejectPacket`).
  unfoldable pub on_publish : IntegrityHook → Bytes → Packet → IntegrityHook × Bool
  unfolding is_probe signature_of check_signature
  on_publish h id pk =
      let h' = record h { packets_checked = h.packets_checked + 1 } in
      if is_probe id then (h', true) else check_signature h' pk (signature_of pk.properties.user)
