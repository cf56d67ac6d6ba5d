-- ===== src/Session/PacketIds/Search.antt =====
-- What `NextPacketID` finds.
use mqtt_protocol_v.Common.{
  ℕ, zero, suc, ◌+◌, ◌%◌, ◌^◌, ◌≤◌, ◌<◌, ◌≡◌, refl, Bool, true, false, ◌&&◌, Option, none, some,
  leb, ◌==◌, arith, Bool-cases, ==_iff, inl, inr,
}
use mqtt_protocol_v.Common.Map.{has}
use mqtt_protocol_v.Packets.Codes.{err_quota_exceeded}
use mqtt_protocol_v.Packets.Errors.{coded, Result, ok, err}
use mqtt_protocol_v.Session.Inflight.{Inflight, get}
use mqtt_protocol_v.Session.PacketIds.{search, next_packet_id}

-- every id from 1 to a number is in flight
abbrev pub all_taken : Inflight → ℕ → Bool
all_taken inflight zero = true
all_taken inflight (suc n) = has (get inflight (suc n)) && all_taken inflight n

-- A packet id between 1 and the maximum that is not in flight, or an error where all are.
abbrev pub IsNext : Inflight → ℕ → Option (Result ℕ) → Type 0
IsNext inflight maximum none = ⊥
IsNext inflight maximum (some (ok n)) = (0 < n) × (n ≤ maximum) × (has (get inflight n) ≡ false)
IsNext inflight maximum (some (err e)) =
    (e ≡ coded err_quota_exceeded) × (all_taken inflight maximum ≡ true)

module _ (inflight : Inflight) (maximum started : ℕ) (small : maximum < 2 ^ 16) where
  all_taken_each :
      (m : ℕ)
      → ((n : ℕ) → 0 < n → n ≤ m → has (get inflight n) ≡ true)
      → all_taken inflight m ≡ true
  all_taken_each zero each = refl
  all_taken_each (suc m) each =
      rw (each (suc m) (omega arith) (omega arith))
        (all_taken_each m (λ n low high. each n low (omega arith)))

  one_more :
      (id : ℕ)
      → has (get inflight (id + 1)) ≡ true
      → ((n : ℕ) → 0 < n → n ≤ id → has (get inflight n) ≡ true)
      → (n : ℕ) → 0 < n
      → n ≤ id + 1
      → has (get inflight n) ≡ true
  one_more id taken below n low most = elim (Bool-cases (n == (id + 1))) [
    | inl last ↦ rw ((==_iff n (id + 1)).0 last) taken
    | inr apart ↦ below n low (ground (arith, apart))
  ]

  one_beyond :
      (id : ℕ)
      → has (get inflight (id + 1)) ≡ true
      → ((n : ℕ) → started < n → n ≤ id → has (get inflight n) ≡ true)
      → (n : ℕ) → started < n
      → n ≤ id + 1
      → has (get inflight n) ≡ true
  one_beyond id taken between n low most = elim (Bool-cases (n == (id + 1))) [
    | inl last ↦ rw ((==_iff n (id + 1)).0 last) taken
    | inr apart ↦ between n low (ground (arith, apart))
  ]

  -- after the search has turned back
  search_after :
      (fuel id : ℕ)
      → id ≤ started
      → started ≤ maximum
      → started < id + fuel
      → ((n : ℕ) → started < n → n ≤ maximum → has (get inflight n) ≡ true)
      → ((n : ℕ) → 0 < n → n ≤ id → has (get inflight n) ≡ true)
      → IsNext inflight maximum (search fuel inflight maximum started id true)
  unfolding search
  search_after zero id low most enough above below = absurd (omega arith)
  search_after (suc fuel) id low most enough above below = elim (Bool-cases (id == started)) [
    | inl back ↦
        rw back
          (refl, all_taken_each maximum (λ n low most. ground (arith, back, below n, above n)))
    | inr before ↦
        let more : leb maximum id ≡ false = ground (arith, before) in
        let whole : (id + 1) % 2 ^ 16 ≡ id + 1 = ground (arith, before) in
        elim (Bool-cases (has (get inflight (id + 1)))) [
          | inl taken ↦
              rw (before, more, whole, taken)
                (search_after fuel (id + 1) (ground (arith, before)) most (omega arith) above
                  (one_more id taken below))
          | inr free ↦ rw (before, more, whole, free) (omega arith, ground (arith, before), free)
        ]
  ]

  -- before it has turned back
  search_before :
      (fuel id : ℕ)
      → started ≤ id
      → id ≤ maximum
      → maximum + started + 2 ≤ id + fuel
      → ((n : ℕ) → started < n → n ≤ id → has (get inflight n) ≡ true)
      → IsNext inflight maximum (search fuel inflight maximum started id false)
  unfolding search
  search_before zero id low most enough between = absurd (omega arith)
  search_before (suc fuel) id low most enough between = elim (Bool-cases (leb maximum id)) [
    | inl top ↦ rw top (
        search_after fuel 0 (omega arith) (omega arith) (ground arith)
          (λ n after within. ground (arith, top, between n))
          (λ n positive none_yet. absurd (omega arith)))
    | inr inside ↦
        let whole : (id + 1) % 2 ^ 16 ≡ id + 1 = ground (arith, inside) in
        elim (Bool-cases (has (get inflight (id + 1)))) [
          | inl taken ↦
              rw (inside, whole, taken)
                (search_before fuel (id + 1) (omega arith) (ground (arith, inside)) (omega arith)
                  (one_beyond id taken between))
          | inr free ↦ rw (inside, whole, free) (omega arith, ground (arith, inside), free)
        ]
  ]

-- `NextPacketID` returns: an id between 1 and the maximum that is not in flight, or an error where
-- every such id is. The maximum is below 65536, and the id given last is at most the maximum.
pub next_packet_id-IsNext :
    (inflight : Inflight) (maximum packet_id : ℕ)
    → maximum < 2 ^ 16
    → packet_id ≤ maximum
    → IsNext inflight maximum (next_packet_id inflight maximum packet_id)
unfolding next_packet_id
next_packet_id-IsNext inflight maximum packet_id small within =
    search_before inflight maximum packet_id small (maximum + 3) packet_id (omega arith) within
      (omega arith) (λ n after before. absurd (omega arith))
