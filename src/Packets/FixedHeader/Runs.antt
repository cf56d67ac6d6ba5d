-- ===== src/Packets/FixedHeader/Runs.antt =====
-- Runs of the fixed header on concrete bytes, and its theorems there.
use mqtt_protocol_v.Common.{◌≡◌, refl, true, none, arith}
use mqtt_protocol_v.Packets.FixedHeader.{FixedHeader, blank, decode, header_byte}
use mqtt_protocol_v.Packets.FixedHeader.RoundTrip.{IsLegal, decode-encode}

-- PUBLISH, qos 1, duplicate, retained
abbrev sample : FixedHeader
sample = record { remaining = 0; packet_type = 3; qos = 1; dup = true; retain = true }

decode-sample : decode blank 0x3b ≡ (sample, none)
unfolding decode
decode-sample = refl

sample-IsLegal : IsLegal sample
sample-IsLegal = record { type_fits = omega arith; qos_fits = omega arith; flags_fit = refl }

decode-encode_example : decode blank (header_byte sample) ≡ (sample, none)
decode-encode_example = decode-encode sample sample-IsLegal
