-- ===== src/Packets/FixedHeader/Flags.antt =====
-- `FixedHeader.Decode` against a description of the header byte by its arithmetic.
use mqtt_protocol_v.Common.{
  ℕ, ◌*◌, ◌/◌, ◌%◌, ◌<◌, ◌≡◌, ◌&&◌, ◌||◌, not, Option, none, some, arith, ltb, ◌==◌, if◌then◌else◌,
}
use mqtt_protocol_v.Common.Bits.{bit_and_one, bit_and_two, bit_and_three}
use mqtt_protocol_v.Packets.Codes.{
  Code, err_protocol_violation_qos_out_of_range, err_malformed_flags,
  err_protocol_violation_dup_no_qos,
}
use mqtt_protocol_v.Packets.FixedHeader.{FixedHeader, blank, decode}

-- The error that a header byte deserves by MQTT's table of flags: type in the high half, and
-- `dup`, two bits of qos and `retain` in the low one.
abbrev pub flag_error : ℕ → ℕ → Option Code
flag_error type flags =
    if type == 3
    then (if flags / 2 % 4 == 3
        then some err_protocol_violation_qos_out_of_range
        else if flags / 2 % 4 == 0 && flags / 8 == 1
        then some err_protocol_violation_dup_no_qos
        else none)
    else if type == 6 || (type == 8 || type == 10)
    then (if flags == 2 then none else some err_malformed_flags)
    else (if flags == 0 then none else some err_malformed_flags)

-- The tests of the four flag bits that `Decode` makes, as tests of the low half.
flags_zero :
    (hb : ℕ)
    → (not (hb % 2 == 0)
        || (not (hb / 2 % 2 == 0) || (not (hb / 4 % 2 == 0) || not (hb / 8 % 2 == 0))))
      ≡ not (hb % 16 == 0)
flags_zero hb = ground arith

flags_two :
    (hb : ℕ)
    → (not (hb % 2 == 0)
        || (not (hb / 2 % 2 == 1) || (not (hb / 4 % 2 == 0) || not (hb / 8 % 2 == 0))))
      ≡ not (hb % 16 == 2)
flags_two hb = ground arith

qos_three : (hb : ℕ) → (ltb 0 (hb / 2 % 2) && ltb 0 (hb / 2 / 2 % 2 * 2)) ≡ (hb % 16 / 2 % 4 == 3)
qos_three hb = ground arith

qos_bits : (hb : ℕ) → hb / 2 % 4 ≡ hb % 16 / 2 % 4
qos_bits hb = omega arith

dup_bit : (hb : ℕ) → ltb 0 (hb / 8 % 2) ≡ (hb % 16 / 8 == 1)
dup_bit hb = ground arith

-- On every byte, `Decode` of a fresh header fails exactly as the table of flags says.
pub decode-flag_error : (hb : ℕ) → hb < 256 → (decode blank hb).1 ≡ flag_error (hb / 16) (hb % 16)
unfolding decode
decode-flag_error hb h =
    simp
      (
        bit_and_one hb h,
        bit_and_one (hb / 2) (omega arith),
        bit_and_one (hb / 4) (omega arith),
        bit_and_one (hb / 8) (omega arith),
        bit_and_two (hb / 2) (omega arith),
        bit_and_three (hb / 2) (omega arith),
      )
      (simp (flags_zero hb, flags_two hb, qos_three hb, dup_bit hb, qos_bits hb) (ground arith))

-- The header that a byte spells.
abbrev pub spelled : ℕ → FixedHeader
spelled hb = record {
  remaining = 0;
  packet_type = hb / 16;
  qos = hb / 2 % 4;
  dup = hb / 8 % 2 == 1;
  retain = hb % 2 == 1;
}

retain_bit : (hb : ℕ) → ltb 0 (hb % 2) ≡ (hb % 2 == 1)
retain_bit hb = ground arith

dup_plain : (hb : ℕ) → ltb 0 (hb / 8 % 2) ≡ (hb / 8 % 2 == 1)
dup_plain hb = ground arith

-- A header byte that `Decode` accepts is read as the header that it spells.
pub decode-spelled :
    (hb : ℕ) → hb < 256 → (decode blank hb).1 ≡ none → (decode blank hb).0 ≡ spelled hb
unfolding decode
decode-spelled hb h =
    simp
      (
        bit_and_one hb h,
        bit_and_one (hb / 2) (omega arith),
        bit_and_one (hb / 4) (omega arith),
        bit_and_one (hb / 8) (omega arith),
        bit_and_two (hb / 2) (omega arith),
        bit_and_three (hb / 2) (omega arith),
      )
      (simp (flags_zero hb, flags_two hb, qos_three hb, dup_plain hb, retain_bit hb) (ground arith))
