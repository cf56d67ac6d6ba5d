-- ===== src/Modules/MessageIntegrity/Runs.antt =====
-- Runs of the integrity hook with a toy MAC, and its theorems there.
use mqtt_protocol_v.Common.{◌≡◌, ◌↔◌, refl, true, false, some, [], ◌∷◌, ◌++◌}
use mqtt_protocol_v.Common.Equality.{Bytes, bytes_eq, codes}
use mqtt_protocol_v.Packets.Packet.{Packet, no_packet}
use mqtt_protocol_v.Modules.MessageIntegrity.{
  IntegrityHook, signature_key, is_probe, signature_of, on_publish,
}
use mqtt_protocol_v.Modules.MessageIntegrity.Verdict.{
  IsAcceptable, on_publish-IsAcceptable, boundary_unsigned,
}

abbrev toy_hmac : Bytes → Bytes → Bytes
toy_hmac secret message = secret ++ message

abbrev hook : IntegrityHook
hook = record {
  config = record { require_signature = true; verify_signature = true; shared_secret = codes "k" };
  packets_checked = 0;
  packets_dropped = 0;
  violation_count = 0;
}

-- a packet signed under the key
abbrev signed : Bytes → Bytes → Packet
signed topic payload = record no_packet {
  topic_name = topic;
  payload = payload;
  properties = record (no_packet.properties) {
    user = record { key = signature_key; val = codes "kab" } ∷ [];
  };
}

unsigned_refused : (on_publish toy_hmac some hook (codes "c") no_packet).1 ≡ false
unfolding on_publish bytes_eq
unsigned_refused = refl

forged_refused :
    (on_publish toy_hmac some hook (codes "c") (signed (codes "a") (codes "x"))).1 ≡ false
unfolding on_publish bytes_eq
forged_refused = refl

probe_passes : (on_publish toy_hmac some hook (codes "probe1") no_packet).1 ≡ true
unfolding on_publish bytes_eq
probe_passes = refl

on_publish-IsAcceptable_example :
    ((on_publish toy_hmac some hook (codes "c") (signed (codes "a") (codes "b"))).1 ≡ true)
    ↔ IsAcceptable toy_hmac some hook (signed (codes "a") (codes "b")) (some (codes "kab"))
unfolding is_probe signature_of bytes_eq
on_publish-IsAcceptable_example =
    on_publish-IsAcceptable toy_hmac some hook (codes "c") (signed (codes "a") (codes "b")) refl

boundary_unsigned_example :
    on_publish toy_hmac some hook (codes "c") (signed (codes "a") (codes "b"))
    ≡ on_publish toy_hmac some hook (codes "c") (signed (codes "ab") [])
boundary_unsigned_example =
    boundary_unsigned toy_hmac some hook (codes "c") (signed (codes "a") (codes "b"))
      (signed (codes "ab") []) refl refl
