-- ===== src/Packets/Packet/Subscribe/Total.antt =====
-- The loop of `SubscribeDecode` ends.
use mqtt_protocol_v.Common.{
  ℕ, zero, suc, ◌+◌, ◌≤◌, ◌≡◌, refl, arith, Bool-cases, inl, inr, List, [], ◌∷◌, ◌++◌, some, ltb,
  length, ◌==◌,
}
use mqtt_protocol_v.Common.Equality.{Bytes}
use mqtt_protocol_v.Packets.Codes.{err_malformed_topic, err_malformed_qos}
use mqtt_protocol_v.Packets.Errors.{Result, ok}
use mqtt_protocol_v.Packets.Codec.{decode_string, decode_byte}
use mqtt_protocol_v.Packets.Codec.Advance.{
  Advances, then-Advances, earlier, byte-Advances, string_progress,
}
use mqtt_protocol_v.Packets.Packet.{Packet, Subscription, no_subscription}
use mqtt_protocol_v.Packets.Packet.Body.{wrap}
use mqtt_protocol_v.Packets.Packet.Body.Rounds.{wrap-Advances, round_returns}
use mqtt_protocol_v.Packets.Packet.Subscribe.{read_options, read_filter, filters_loop}

options-Advances :
    (version : ℕ) (s : Subscription) (buf : Bytes) (offset : ℕ)
    → Advances (offset + 1) (read_options version s buf offset)
unfolding read_options
options-Advances version s buf offset = elim (Bool-cases (version == 5)) [
  | inl five ↦ elim (Bool-cases (ltb offset (length buf))) [
    | inl inside ↦ rw (five, inside) (omega arith)
    | inr outside ↦ rw (five, outside) tt
  ]
  | inr older ↦ rw older (
      then-Advances (offset + 1) (wrap err_malformed_qos (decode_byte buf offset)) _
        (wrap-Advances err_malformed_qos (offset + 1) (decode_byte buf offset)
          (byte-Advances buf offset))
        (λ option next h. h))
]

filter-Advances :
    (pk : Packet) (buf : Bytes) (offset : ℕ) → Advances (offset + 1) (read_filter pk buf offset)
unfolding read_filter
filter-Advances pk buf offset =
    then-Advances (offset + 1) (wrap err_malformed_topic (decode_string buf offset)) _
      (wrap-Advances err_malformed_topic (offset + 1) (decode_string buf offset)
        (string_progress buf offset))
      (λ filter middle h.
        then-Advances (offset + 1)
          (read_options pk.protocol_version (record no_subscription { filter = filter }) buf middle)
          _
          (earlier (offset + 1) (middle + 1)
            (read_options pk.protocol_version (record no_subscription { filter = filter }) buf
              middle)
            (omega arith)
            (options-Advances pk.protocol_version (record no_subscription { filter = filter }) buf
              middle))
          (λ s next g. elim (Bool-cases (ltb 2 s.qos)) [
            | inl high ↦ rw high tt
            | inr fits ↦ rw fits g
          ]))

-- The loop of `SubscribeDecode` returns wherever it starts, on as many rounds as there are bytes left.
pub filters_loop_total :
    (fuel : ℕ) (pk : Packet) (buf : Bytes) (offset : ℕ) (filters : List Subscription)
    → length buf ≤ offset + fuel
    → (r : Result Packet) × (filters_loop fuel pk buf offset filters ≡ some r)
unfolding filters_loop
filters_loop_total zero pk buf offset filters h =
    (ok (record pk { filters = filters }), ground arith)
filters_loop_total (suc fuel) pk buf offset filters h =
    elim (Bool-cases (ltb offset (length buf))) [
      | inr ended ↦ rw (ended, filters_loop) (ok (record pk { filters = filters }), refl)
      | inl more ↦ rw more (
          round_returns offset (read_filter pk buf offset)
            (λ s next. filters_loop fuel pk buf next (filters ++ s ∷ []))
            (filter-Advances pk buf offset)
            (λ s next g. filters_loop_total fuel pk buf next (filters ++ s ∷ []) (omega arith)))
    ]
