-- ===== src/Packets/FixedHeader.antt =====
-- broker/packets/fixedheader.go: the first byte of a packet and the remaining length.
pub mod Flags
pub mod RoundTrip
mod Runs
use mqtt_protocol_v.Common.{
  ℕ, ◌+◌, ◌*◌, ◌/◌, ◌%◌, bit_and, bit_or, Bool, false, ◌&&◌, ◌||◌, not, Option, none, some, ◌∷◌,
  ltb, ◌==◌, if◌then◌else◌,
}
use mqtt_protocol_v.Common.Equality.{Bytes}
use mqtt_protocol_v.Packets.Codes.{
  Code, err_protocol_violation_qos_out_of_range, err_malformed_flags,
  err_protocol_violation_dup_no_qos,
}
use mqtt_protocol_v.Packets.Codec.{encode_bool, encode_length}
use mqtt_protocol_v.Packets.Types

-- `FixedHeader`; `packet_type` is the field `Type`.
pub record FixedHeader : Type 0 where
  pub remaining : ℕ
  pub packet_type : ℕ
  pub qos : ℕ
  pub dup : Bool
  pub retain : Bool

-- the zero value
abbrev pub blank : FixedHeader
blank = record { remaining = 0; packet_type = 0; qos = 0; dup = false; retain = false }

-- the first byte that `Encode` writes; the shifts are done in a `byte`
unfoldable pub header_byte : FixedHeader → ℕ
unfolding encode_bool
header_byte fh =
    bit_or
      (bit_or (bit_or (fh.packet_type * 16 % 256) (encode_bool fh.dup * 8 % 256))
        (fh.qos * 2 % 256))
      (encode_bool fh.retain)

-- `FixedHeader.Encode`: the bytes that it writes.
unfoldable pub encode : FixedHeader → Bytes
unfolding header_byte
encode fh = header_byte fh ∷ encode_length fh.remaining

-- the switch of `Decode`, and the header at its end
decode_flags : FixedHeader → ℕ → FixedHeader × Option Code
decode_flags fh hb =
    if fh.packet_type == Types.publish
    then (if ltb 0 (bit_and (hb / 2) 0x01) && ltb 0 (bit_and (hb / 2) 0x02)
        then (fh, some err_protocol_violation_qos_out_of_range)
        else (
          record fh {
            dup = ltb 0 (bit_and (hb / 8) 0x01);
            qos = bit_and (hb / 2) 0x03;
            retain = ltb 0 (bit_and hb 0x01);
          },
          none,
        ))
    else if fh.packet_type == Types.pubrel
        || (fh.packet_type == Types.subscribe || fh.packet_type == Types.unsubscribe)
    then (if not (bit_and hb 0x01 == 0)
          || (not (bit_and (hb / 2) 0x01 == 1)
              || (not (bit_and (hb / 4) 0x01 == 0) || not (bit_and (hb / 8) 0x01 == 0)))
        then (fh, some err_malformed_flags)
        else (record fh { qos = bit_and (hb / 2) 0x03 }, none))
    else if not (bit_and hb 0x01 == 0)
        || (not (bit_and (hb / 2) 0x01 == 0)
            || (not (bit_and (hb / 4) 0x01 == 0) || not (bit_and (hb / 8) 0x01 == 0)))
    then (fh, some err_malformed_flags)
    else (fh, none)

-- the last test of `Decode`
check_dup : FixedHeader × Option Code → FixedHeader × Option Code
check_dup (fh, some c) = (fh, some c)
check_dup (fh, none) =
    if fh.qos == 0 && fh.dup then (fh, some err_protocol_violation_dup_no_qos) else (fh, none)

-- `FixedHeader.Decode`: the header as it stands at the return, and the error.
unfoldable pub decode : FixedHeader → ℕ → FixedHeader × Option Code
unfolding decode_flags check_dup
decode fh hb = check_dup (decode_flags (record fh { packet_type = hb / 16 }) hb)
