-- ===== src/Packets/Packet/Subscribe/Options.antt =====
-- The byte of a subscription's options.
use mqtt_protocol_v.Common.{
  ℕ, ◌*◌, ◌/◌, ◌%◌, ◌<◌, bit_and, bit_or, ◌≡◌, refl, Bool, true, false, ◌&&◌, arith, ltb, ◌==◌,
  ==_iff, if◌then◌else◌,
}
use mqtt_protocol_v.Common.Bits.{all_below, all_below_sound}
use mqtt_protocol_v.Packets.Packet.{Subscription}
use mqtt_protocol_v.Packets.Codec.{encode_bool}
use mqtt_protocol_v.Packets.Packet.Subscribe.{encode_options, decode_options}

abbrev one : Bool → ℕ
one b = if b then 1 else 0

abbrev byte : ℕ → Bool → Bool → ℕ → ℕ
byte q n r h = bit_or (bit_or (bit_or q (one n * 4)) (one r * 8)) (h * 16 % 256)

abbrev agrees : Bool → Bool → ℕ → ℕ → Bool
agrees n r q h =
    bit_and (byte q n r h) 3 == q
    && (bit_and 1 (byte q n r h / 4) == one n
        && (bit_and 1 (byte q n r h / 8) == one r && bit_and 3 (byte q n r h / 16) == h))

abbrev rows : Bool → Bool → ℕ → Bool
rows n r q = all_below 4 (agrees n r q)

table : Bool → Bool → Bool
table n r = all_below 4 (rows n r)

table_holds : (n r : Bool) → table n r ≡ true
unfolding table
table_holds true true = refl
table_holds true false = refl
table_holds false true = refl
table_holds false false = refl

both : (a b : Bool) → (a && b) ≡ true → (a ≡ true) × (b ≡ true)
both a b h = ground arith

flag : (b : Bool) (v : ℕ) → v ≡ one b → ltb 0 v ≡ b
flag true v e = ground arith
flag false v e = ground arith

-- Of the options that fit their bits, `Subscription.decode` reads what `Subscription.encode` wrote,
-- and leaves the other fields of the subscription alone.
pub decode_options-encode_options :
    (s t : Subscription)
    → s.qos < 4
    → s.retain_handling < 4
    → decode_options t (encode_options s) ≡ record t {
      qos = s.qos;
      no_local = s.no_local;
      retain_as_published = s.retain_as_published;
      retain_handling = s.retain_handling;
    }
unfolding decode_options encode_options encode_bool table
decode_options-encode_options s t q h =
    let n = s.no_local in
    let r = s.retain_as_published in
    let row : rows n r s.qos ≡ true = all_below_sound 4 (rows n r) s.qos (table_holds n r) q in
    let cell : agrees n r s.qos s.retain_handling ≡ true =
      all_below_sound 4 (agrees n r s.qos) s.retain_handling row h in
    let (low, rest) = both _ _ cell in
    let (second, rest') = both _ _ rest in
    let (third, high) = both _ _ rest' in
    let b = byte s.qos n r s.retain_handling in
    let qos_read : bit_and b 3 ≡ s.qos = (==_iff _ _).0 low in
    let local_read : ltb 0 (bit_and 1 (b / 4)) ≡ n = flag n _ ((==_iff _ _).0 second) in
    let retain_read : ltb 0 (bit_and 1 (b / 8)) ≡ r = flag r _ ((==_iff _ _).0 third) in
    let handling_read : bit_and 3 (b / 16) ≡ s.retain_handling = (==_iff _ _).0 high in
    cc (qos_read, local_read, retain_read, handling_read)
