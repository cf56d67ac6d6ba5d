-- ===== src/Packets/FixedHeader/RoundTrip.antt =====
-- `FixedHeader.Encode` and `Decode` undo one another on the first byte.
use mqtt_protocol_v.Common.{
  ℕ, ◌+◌, ◌*◌, ◌/◌, ◌%◌, ◌≤◌, ◌<◌, bit_or, ◌≡◌, refl, ◌∙◌, Bool, true, false, ◌&&◌, ◌||◌, not, none,
  arith, ◌==◌, ==_iff, if◌then◌else◌,
}
use mqtt_protocol_v.Common.Bits.{all_below, all_below_sound}
use mqtt_protocol_v.Packets.FixedHeader.{FixedHeader, blank, header_byte, decode}
use mqtt_protocol_v.Packets.FixedHeader.Flags.{
  flag_error, decode-flag_error, spelled, decode-spelled,
}

abbrev pub fitting_flags : FixedHeader → Bool
fitting_flags fh =
    if fh.packet_type == 3
    then not (fh.qos == 0 && fh.dup)
    else not fh.dup
      && (not fh.retain
          && fh.qos == (
              if fh.packet_type == 6 || (fh.packet_type == 8 || fh.packet_type == 10)
              then 1
              else 0))

-- A header that MQTT allows: for a PUBLISH any flags but qos 3 and a duplicate without qos; for the
-- other types the fixed flags.
pub record IsLegal (fh : FixedHeader) : Type 0 where
  pub type_fits : fh.packet_type < 16
  pub qos_fits : fh.qos ≤ 2
  pub flags_fit : fitting_flags fh ≡ true

abbrev one : Bool → ℕ
one b = if b then 1 else 0

abbrev row : Bool → Bool → ℕ → ℕ → Bool
row d r t q =
    bit_or (bit_or (bit_or (t * 16 % 256) (one d * 8 % 256)) (q * 2 % 256)) (one r)
    == (t * 16 + one d * 8 + q * 2 + one r)

abbrev rows : Bool → Bool → ℕ → Bool
rows d r t = all_below 4 (row d r t)

fields_table : Bool → Bool → Bool
fields_table d r = all_below 16 (rows d r)

fields_table_holds : (d r : Bool) → fields_table d r ≡ true
unfolding fields_table
fields_table_holds true true = refl
fields_table_holds true false = refl
fields_table_holds false true = refl
fields_table_holds false false = refl

-- The header byte as a sum of its fields.
pub header_byte_sum :
    (fh : FixedHeader)
    → fh.packet_type < 16
    → fh.qos < 4
    → header_byte fh ≡ fh.packet_type * 16 + one fh.dup * 8 + fh.qos * 2 + one fh.retain
unfolding header_byte fields_table
header_byte_sum fh ht hq =
    let d = fh.dup in
    let r = fh.retain in
    let of_type : rows d r fh.packet_type ≡ true =
      all_below_sound 16 (rows d r) fh.packet_type (fields_table_holds d r) ht in
    (==_iff _ _).0 (all_below_sound 4 (row d r fh.packet_type) fh.qos of_type hq)

-- A first byte that `Decode` accepts is the byte that `Encode` writes for the header it was read as:
-- no bit is lost.
pub encode-decode :
    (hb : ℕ) → hb < 256 → (decode blank hb).1 ≡ none → header_byte (decode blank hb).0 ≡ hb
encode-decode hb h e =
    rw (decode-spelled hb h e, header_byte_sum (spelled hb) (omega arith) (omega arith))
      (ground arith)

module _ (fh : FixedHeader) (l : IsLegal fh) where
  sum_of : header_byte fh ≡ fh.packet_type * 16 + one fh.dup * 8 + fh.qos * 2 + one fh.retain
  sum_of = header_byte_sum fh l.type_fits (omega arith)

  byte_fits : header_byte fh < 256
  byte_fits = ground (arith, sum_of)

  type_half : header_byte fh / 16 ≡ fh.packet_type
  type_half = ground (arith, sum_of)

  flag_half : header_byte fh % 16 ≡ one fh.dup * 8 + fh.qos * 2 + one fh.retain
  flag_half = ground (arith, sum_of)

  legal_flags : flag_error (header_byte fh / 16) (header_byte fh % 16) ≡ none
  legal_flags = rw (type_half, flag_half) (ground arith)

  same_fields : spelled (header_byte fh) ≡ record fh { remaining = 0 }
  same_fields = ground (arith, sum_of)

  accepted : (decode blank (header_byte fh)).1 ≡ none
  accepted = decode-flag_error (header_byte fh) byte_fits ∙ legal_flags

  -- `Decode` reads back the flags that `Encode` wrote for a header that MQTT allows.
  pub decode-encode : decode blank (header_byte fh) ≡ (record fh { remaining = 0 }, none)
  decode-encode = cc (accepted, decode-spelled (header_byte fh) byte_fits accepted, same_fields)
