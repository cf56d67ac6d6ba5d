-- ===== src/Packets/Packet/Body.antt =====
-- What the encoders and decoders of broker/packets/packets.go share. An encoder returns the bytes
-- that it appends to the buffer; a decoder returns the packet that it has filled, and on an error
-- leaves out what it has already set, since its callers drop the packet then. Where the source wraps
-- an error of the codec in one of its own, the model keeps the latter.
pub mod Reads
pub mod Rounds
use mqtt_protocol_v.Common.{
  ℕ, zero, suc, ◌+◌, ◌*◌, ◌/◌, ◌%◌, ◌^◌, bit_and, bit_or, Bool, true, false, not, ◌&&◌, ◌||◌,
  Option, none, some, List, [], ◌∷◌, ◌++◌, ltb, leb, ◌==◌, length, drop, if◌then◌else◌,
}
use mqtt_protocol_v.Common.Equality.{Bytes, bytes_eq, codes}
use mqtt_protocol_v.Common.{◌≡◌, refl, ◌∙◌, sym, ap}
use mqtt_protocol_v.Packets.Codes.{Code}
use mqtt_protocol_v.Packets.Errors.{Error, eof, coded, Result, ok, err, ◌>>=◌}
use mqtt_protocol_v.Packets.FixedHeader
use mqtt_protocol_v.Packets.FixedHeader.{FixedHeader}
use mqtt_protocol_v.Packets.Packet.{Packet}
use mqtt_protocol_v.Packets.Properties.{Properties}
use mqtt_protocol_v.Packets.Properties.Encode
use mqtt_protocol_v.Packets.Properties.Decode
use mqtt_protocol_v.Packets.Properties.Decode.Total.{decode_total}

-- an error under the code that the source wraps round it
abbrev pub wrap {ℓ} : {A : Type ℓ} → Code → Result A → Result A
wrap c (ok a) = ok a
wrap c (err e) = err (coded c)

-- the result of a loop whose fuel is enough
abbrev pub finished {ℓ} : {A : Type ℓ} → Option (Result A) → Result A
finished none = err eof
finished (some r) = r

unfoldable pub read_properties : ℕ → Properties → Bytes → Result (Properties × ℕ)
read_properties pkt p b = finished (Decode.decode pkt p b)

-- The fuel of `Properties.Decode` is always enough, so that its reading is its result.
read_properties-decode :
    (pkt : ℕ) (p : Properties) (b : Bytes) → Decode.decode pkt p b ≡ some (read_properties pkt p b)
unfolding read_properties
read_properties-decode pkt p b = let (r, returned) = decode_total pkt p b in rw returned refl

-- the properties of a version 5 packet, and the offset behind them
unfoldable pub read_v5 : Packet → Code → Bytes → ℕ → Result (Packet × ℕ)
unfolding read_properties
read_v5 pk c buf offset =
    if pk.protocol_version == 5
    then (wrap c (read_properties pk.fixed_header.packet_type pk.properties (drop offset buf))
        >>= λ (p, n). ok (record pk { properties = p }, offset + n))
    else ok (pk, offset)

-- the properties as a version 5 packet writes them, where `n` more bytes are in it
unfoldable pub written_v5 : Packet → ℕ → Bytes
written_v5 pk n =
    if pk.protocol_version == 5
    then Encode.encode pk.fixed_header.packet_type pk.mods n pk.properties
    else []

-- The end of an encoder: the fixed header with the length of what follows.
unfoldable pub framed : Packet → Bytes → Bytes
framed pk nb = FixedHeader.encode (record pk.fixed_header { remaining = length nb }) ++ nb
