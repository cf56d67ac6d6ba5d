-- ===== src/Packets/Packet/Subscribe/RoundTrip.antt =====
-- `SubscribeDecode` reads the filters that `SubscribeEncode` writes.
use mathlib.Core.List.{append_assoc, append-nil}
use mqtt_protocol_v.Common.{
  ℕ, zero, suc, ◌+◌, ◌^◌, ◌<◌, ◌≤◌, ◌≡◌, refl, sym, ap, ◌∙◌, All, true, false, List, [], ◌∷◌, ◌++◌,
  some, ltb, ◌==◌, length, map, arith, Bool-cases, inl, inr, if◌then◌else◌, length-append,
}
use mqtt_protocol_v.Common.Equality.{Bytes}
use mqtt_protocol_v.Packets.Codes.{err_malformed_topic, err_malformed_qos}
use mqtt_protocol_v.Packets.Errors.{ok}
use mqtt_protocol_v.Packets.Codec.{valid_utf8, encode_string}
use mqtt_protocol_v.Packets.Codec.Strings.{get_or-append}
use mqtt_protocol_v.Packets.Packet.Body.Reads.{read_string, read_byte, length-encode_string}
use mqtt_protocol_v.Packets.Packet.{Packet, Subscription, no_subscription}
use mqtt_protocol_v.Packets.Packet.Subscribe.{
  encode_options, read_options, read_filter, first_identifier, filters_part, filters_loop,
}
use mqtt_protocol_v.Packets.Packet.Subscribe.Options.{decode_options-encode_options}

-- A subscription that its bytes have room for: a text that is valid UTF-8, and a QoS that there is.
abbrev pub IsWritable : Subscription → Type 0
IsWritable s =
    (valid_utf8 s.filter ≡ true)
    × (length s.filter < 2 ^ 16)
    × (s.qos ≤ 2)
    × (s.retain_handling < 4)

-- what a version carries of a subscription, with the identifier of the whole packet
pub as_read : Packet → Subscription → Subscription
as_read pk s =
    if pk.protocol_version == 5
    then record no_subscription {
      filter = s.filter;
      qos = s.qos;
      no_local = s.no_local;
      retain_as_published = s.retain_as_published;
      retain_handling = s.retain_handling;
      identifier = first_identifier pk.properties.subscription_identifier;
    }
    else record no_subscription {
      filter = s.filter;
      qos = s.qos;
      identifier = first_identifier pk.properties.subscription_identifier;
    }

-- the byte of the options
abbrev option_byte : ℕ → Subscription → ℕ
option_byte version s = if version == 5 then encode_options s else s.qos

-- the options behind a filter
options_of : ℕ → Subscription → Subscription → Subscription
options_of version s t =
    if version == 5
    then record t {
      qos = s.qos;
      no_local = s.no_local;
      retain_as_published = s.retain_as_published;
      retain_handling = s.retain_handling;
    }
    else record t { qos = s.qos }

read_options-written :
    (version : ℕ) (pre rest : Bytes) (offset : ℕ) (s t : Subscription)
    → offset ≡ length pre
    → s.qos < 4
    → s.retain_handling < 4
    → read_options version t (pre ++ (option_byte version s ∷ rest)) offset
      ≡ ok (options_of version s t, offset + 1)
unfolding read_options options_of
read_options-written version pre rest offset s t at low handling =
    elim (Bool-cases (version == 5)) [
      | inl five ↦
          let inside : ltb offset (length (pre ++ (encode_options s ∷ rest))) ≡ true =
            ground (arith, length-append pre (encode_options s ∷ rest)) in
          rw
            (
              five,
              inside,
              get_or-append pre (encode_options s ∷ rest) 0 offset 0 (omega arith),
              decode_options-encode_options s t low handling,
            )
            refl
      | inr older ↦ rw (older, read_byte err_malformed_qos pre rest offset at s.qos) refl
    ]

read_filter-written :
    (pk : Packet) (pre rest : Bytes) (offset : ℕ) (s : Subscription)
    → offset ≡ length pre
    → IsWritable s
    → read_filter pk
        (pre ++ (encode_string s.filter ++ (option_byte pk.protocol_version s ∷ rest)))
        offset
      ≡ ok (as_read pk s, offset + 2 + length s.filter + 1)
unfolding read_filter as_read options_of
read_filter-written pk pre rest offset s at (valid, short, low, handling) =
    let front = pre ++ encode_string s.filter in
    let byte = option_byte pk.protocol_version s in
    rw (read_string err_malformed_topic pre (byte ∷ rest) offset at s.filter short valid) (
      rw (sym (append_assoc pre (encode_string s.filter) (byte ∷ rest))) (
        rw
          (read_options-written pk.protocol_version front rest (offset + 2 + length s.filter) s
            (record no_subscription { filter = s.filter })
            (omega
              (arith, length-append pre (encode_string s.filter), length-encode_string s.filter))
            (omega arith) handling)
          (elim (Bool-cases (pk.protocol_version == 5)) [
            | inl five ↦ let fits : ltb 2 s.qos ≡ false = ground arith in rw (five, fits) refl
            | inr older ↦ let fits : ltb 2 s.qos ≡ false = ground arith in rw (older, fits) refl
          ])))

-- The loop of `SubscribeDecode` reads every filter that `SubscribeEncode` wrote for its version, in
-- order, behind any bytes and to the end of the buffer, with a round of fuel for each: in version 5
-- with all its options, in the others with its QoS, and in both with the identifier of the packet's
-- properties. The filters are valid UTF-8 of fewer than 65536 bytes, with a QoS of at most 2 and a
-- retain handling below 4.
pub filters_loop-filters_part :
    (filters : List Subscription) (fuel : ℕ) (pk : Packet) (pre : Bytes) (acc : List Subscription)
    → All IsWritable filters
    → length filters ≤ fuel
    → filters_loop fuel pk (pre ++ filters_part pk.protocol_version filters) (length pre) acc
      ≡ some (ok (record pk { filters = acc ++ map (as_read pk) filters }))
unfolding filters_loop filters_part
filters_loop-filters_part [] zero pk pre acc fit enough =
    let done : ltb (length pre) (length pre) ≡ false = ground arith in
    rw (append-nil pre, append-nil acc, done) refl
filters_loop-filters_part [] (suc fuel) pk pre acc fit enough =
    let done : ltb (length pre) (length pre) ≡ false = ground arith in
    rw (append-nil pre, append-nil acc, done) refl
filters_loop-filters_part (s ∷ filters) zero pk pre acc fit enough = absurd (omega arith)
filters_loop-filters_part (s ∷ filters) (suc fuel) pk pre acc (fits, fit) enough =
    let byte = option_byte pk.protocol_version s in
    let rest = filters_part pk.protocol_version filters in
    let head = pre ++ (encode_string s.filter ++ (byte ∷ [])) in
    let more : ltb (length pre) (length (pre ++ (encode_string s.filter ++ (byte ∷ rest)))) ≡ true =
      ground (
        arith,
        length-append pre (encode_string s.filter ++ (byte ∷ rest)),
        length-append (encode_string s.filter) (byte ∷ rest),
      ) in
    let whole : pre ++ (encode_string s.filter ++ (byte ∷ rest)) ≡ head ++ rest = sym (
      append_assoc pre (encode_string s.filter ++ (byte ∷ [])) rest
      ∙ ap (λ (l : Bytes). pre ++ l) (append_assoc (encode_string s.filter) (byte ∷ []) rest)) in
    let reached : length pre + 2 + length s.filter + 1 ≡ length head = omega (
      arith,
      length-append pre (encode_string s.filter ++ (byte ∷ [])),
      length-append (encode_string s.filter) (byte ∷ []),
      length-encode_string s.filter,
    ) in
    rw (more, read_filter-written pk pre rest (length pre) s refl fits)
      (rw (whole, reached)
        (filters_loop-filters_part filters fuel pk head (acc ++ as_read pk s ∷ []) fit (omega arith)
          ∙ rw (append_assoc acc (as_read pk s ∷ []) (map (as_read pk) filters)) refl))
