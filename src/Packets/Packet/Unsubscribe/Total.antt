-- ===== src/Packets/Packet/Unsubscribe/Total.antt =====
-- The loop of `UnsubscribeDecode` ends.
use mqtt_protocol_v.Common.{
  ℕ, zero, suc, ◌+◌, ◌≤◌, ◌≡◌, refl, arith, Bool-cases, inl, inr, List, [], ◌∷◌, ◌++◌, some, ltb,
  length,
}
use mqtt_protocol_v.Common.Equality.{Bytes}
use mqtt_protocol_v.Packets.Codes.{err_malformed_topic}
use mqtt_protocol_v.Packets.Errors.{Result, ok}
use mqtt_protocol_v.Packets.Codec.{decode_string}
use mqtt_protocol_v.Packets.Codec.Advance.{string_progress}
use mqtt_protocol_v.Packets.Packet.{Packet, Subscription, no_subscription}
use mqtt_protocol_v.Packets.Packet.Body.{wrap}
use mqtt_protocol_v.Packets.Packet.Body.Rounds.{wrap-Advances, round_returns}
use mqtt_protocol_v.Packets.Packet.Unsubscribe.{names_loop}

-- The loop of `UnsubscribeDecode` returns wherever it starts, on as many rounds as there are bytes
-- left.
pub names_loop_total :
    (fuel : ℕ) (pk : Packet) (buf : Bytes) (offset : ℕ) (filters : List Subscription)
    → length buf ≤ offset + fuel
    → (r : Result Packet) × (names_loop fuel pk buf offset filters ≡ some r)
unfolding names_loop
names_loop_total zero pk buf offset filters h = (ok (record pk { filters = filters }), ground arith)
names_loop_total (suc fuel) pk buf offset filters h = elim (Bool-cases (ltb offset (length buf))) [
  | inr ended ↦ rw (ended, names_loop) (ok (record pk { filters = filters }), refl)
  | inl more ↦ rw more (
      round_returns offset (wrap err_malformed_topic (decode_string buf offset))
        (λ name next.
          names_loop fuel pk buf next (filters ++ record no_subscription { filter = name } ∷ []))
        (wrap-Advances err_malformed_topic (offset + 1) (decode_string buf offset)
          (string_progress buf offset))
        (λ name next g.
          names_loop_total fuel pk buf next
            (filters ++ record no_subscription { filter = name } ∷ []) (omega arith)))
]
