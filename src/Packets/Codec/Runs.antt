-- ===== src/Packets/Codec/Runs.antt =====
-- Runs of the codec on concrete inputs (some are the cases of codec_test.go), and its theorems there.
use mqtt_protocol_v.Common.{◌≡◌, refl, true, false, [], ◌∷◌, ◌++◌, arith, length, replicate}
use mqtt_protocol_v.Common.Equality.{codes}
use mqtt_protocol_v.Packets.Codes.{err_malformed_variable_byte_integer}
use mqtt_protocol_v.Packets.Errors.{coded}
use mqtt_protocol_v.Packets.Codec.{encode_length, decode_length, done, failed, valid_utf8}
use mqtt_protocol_v.Packets.Codec.Length.{decode_length-encode_length}
use mqtt_protocol_v.Packets.Codec.Limits.{decode_length_padded}

encode_120 : encode_length 120 ≡ 0x78 ∷ []
unfolding encode_length
encode_120 = refl

encode_321 : encode_length 321 ≡ 193 ∷ 2 ∷ []
unfolding encode_length
encode_321 = refl

decode_longest : decode_length (255 ∷ 255 ∷ 255 ∷ 127 ∷ []) ≡ done 268435455 4 []
unfolding decode_length
decode_longest = refl

decode_oversize :
    decode_length (0xff ∷ 0xff ∷ 0xff ∷ 0xff ∷ 0xff ∷ 0x7f ∷ [])
    ≡ failed 5 (coded err_malformed_variable_byte_integer)
unfolding decode_length
decode_oversize = refl

utf8_runs :
    (valid_utf8 (codes "testing") ≡ true)
    × (valid_utf8 (0xff ∷ 0xff ∷ []) ≡ false)
    × (valid_utf8 (0x74 ∷ 0x00 ∷ 0x73 ∷ []) ≡ false)
    × (valid_utf8 (0xe2 ∷ 0x82 ∷ 0xac ∷ []) ≡ true)
    × (valid_utf8 (0xed ∷ 0xa0 ∷ 0x80 ∷ []) ≡ false)
unfolding valid_utf8
utf8_runs = (refl, refl, refl, refl, refl)

decode_length-encode_length_example :
    decode_length (encode_length 321 ++ (9 ∷ [])) ≡ done 321 (length (encode_length 321)) (9 ∷ [])
decode_length-encode_length_example = decode_length-encode_length 321 (9 ∷ []) (omega arith)

decode_length_padded_example : decode_length (replicate 6 0x80 ++ (0 ∷ [])) ≡ done 0 7 []
decode_length_padded_example = decode_length_padded 6 []
