-- ===== src/Packets/Codec/Length.antt =====
-- `encodeLength` and `DecodeLength`: MQTT's variable byte integers.
use mathlib.Core.Path.{ap}
use mathlib.Core.WellFounded.{Acc}
use native.Mathlib.Nat.{div-add-mod}
use native.Mathlib.Numerals.{towards_suc}
use mqtt_protocol_v.Common.{
  ℕ, zero, suc, ◌+◌, ◌-◌, ◌*◌, ◌/◌, ◌%◌, ◌^◌, ◌≤◌, ◌<◌, ◌≡◌, ◌∙◌, [], ◌∷◌, ◌++◌, arith, ltb,
  if◌then◌else◌, length, All, Bool-cases, inl, inr, lt_wf,
}
use mqtt_protocol_v.Common.Bits.{bit_and_low, bit_and_top, bit_or_top, bit_or_disjoint}
use mqtt_protocol_v.Common.Equality.{Bytes}
use mqtt_protocol_v.Packets.Codec.{
  encode_length_loop, encode_length, done, decode_length_loop, decode_length,
}

abbrev pub IsByte : ℕ → Type 0
IsByte b = b < 256

-- The groups of seven bits of `n`, lowest first, for `n` below 128 ^ (k + 1).
unfoldable pub groups : ℕ → ℕ → Bytes
groups zero n = n ∷ []
groups (suc k) n =
    let rest = groups k (n / 128) in if ltb n 128 then n ∷ [] else (n % 128 + 128) ∷ rest

encode_length_loop-groups :
    (k n : ℕ) (w : Acc ◌<◌ n) → n < 128 ^ suc k → encode_length_loop n w ≡ groups k n
unfolding encode_length_loop groups
encode_length_loop-groups zero n (Acc.intro _ smaller) h = ground arith
encode_length_loop-groups (suc k) n (Acc.intro _ smaller) h = grind (
  arith,
  bit_or_top (n % 128) (omega arith),
  λ (w : Acc ◌<◌ (n / 128)). encode_length_loop-groups k (n / 128) w (omega arith),
)

-- What `encodeLength` writes, as arithmetic.
pub encode_length-groups : (k n : ℕ) → n < 128 ^ suc k → encode_length n ≡ groups k n
unfolding encode_length
encode_length-groups k n h = encode_length_loop-groups k n (lt_wf.apply n) h

groups_shape :
    (k n : ℕ)
    → n < 128 ^ suc k
    → All IsByte (groups k n) × (1 ≤ length (groups k n)) × (length (groups k n) ≤ suc k)
unfolding groups
groups_shape zero n h = omega arith
groups_shape (suc k) n h = ground (arith, groups_shape k (n / 128) (omega arith))

shift_seven : (s : ℕ) → 2 ^ (s + 7) ≡ 128 * 2 ^ s
shift_seven s = simp towards_suc (omega arith)

-- The lowest group of `n` and the rest, both shifted by `s`.
split_group : (n s : ℕ) → n * 2 ^ s ≡ n % 128 * 2 ^ s + n / 128 * 2 ^ (s + 7)
split_group n s = omega (
  arith,
  ap (λ (t : ℕ). t * 2 ^ s) (div-add-mod n 128),
  ap (λ (t : ℕ). n / 128 * t) (shift_seven s),
)

-- One round of the loop, where nothing is lost to the 32 bits.
module _ (value multiplier bu : ℕ) (rest : Bytes) (room : value < 2 ^ multiplier) where
  last_round :
      (g : ℕ)
      → g < 128
      → value + g * 2 ^ multiplier ≤ 268435455
      → decode_length_loop (g ∷ rest) value multiplier bu
        ≡ done (value + g * 2 ^ multiplier) bu rest
  unfolding decode_length_loop
  last_round g hg fits =
      ground (arith, bit_and_low g, bit_and_top g, bit_or_disjoint multiplier value g room)

  inner_round :
      (g : ℕ)
      → g < 128
      → multiplier ≤ 21
      → value + g * 2 ^ multiplier ≤ 268435455
      → decode_length_loop ((g + 128) ∷ rest) value multiplier bu
        ≡ decode_length_loop rest (value + g * 2 ^ multiplier) (multiplier + 7) (bu + 1)
  unfolding decode_length_loop
  inner_round g hg hm fits =
      ground (
        arith,
        bit_and_low (g + 128),
        bit_and_top (g + 128),
        bit_or_disjoint multiplier value g room,
      )

next_room : (value g s : ℕ) → value < 2 ^ s → g < 128 → value + g * 2 ^ s < 2 ^ (s + 7)
next_room value g s room hg = rw (shift_seven s) (grind arith)

-- `n` is what is still to be read, and it counts from bit `multiplier` on.
decode_length_loop-groups :
    (k n value multiplier bu : ℕ) (rest : Bytes)
    → n < 128 ^ suc k
    → multiplier + 7 * k ≤ 21
    → value < 2 ^ multiplier
    → value + n * 2 ^ multiplier ≤ 268435455
    → decode_length_loop (groups k n ++ rest) value multiplier bu
      ≡ done (value + n * 2 ^ multiplier) (bu + length (groups k n) - 1) rest
unfolding groups
decode_length_loop-groups zero n value multiplier bu rest hn hm room fits =
    ground (arith, last_round value multiplier bu rest room n)
decode_length_loop-groups (suc k) n value multiplier bu rest hn hm room fits =
    elim (Bool-cases (ltb n 128)) [
      | inl small ↦ rw small (ground (arith, last_round value multiplier bu rest room n))
      | inr large ↦ rw large (
          inner_round value multiplier bu (groups k (n / 128) ++ rest) room (n % 128) (omega arith)
            (omega arith) (omega (arith, split_group n multiplier))
          ∙ decode_length_loop-groups k (n / 128) (value + n % 128 * 2 ^ multiplier)
              (multiplier + 7) (bu + 1) rest (omega arith) (omega arith)
              (next_room value (n % 128) multiplier room (omega arith))
              (omega (arith, split_group n multiplier))
          ∙ finish)
    ]
  where
    finish :
        done
          (value + n % 128 * 2 ^ multiplier + n / 128 * 2 ^ (multiplier + 7))
          (bu + 1 + length (groups k (n / 128)) - 1)
          rest
        ≡ done (value + n * 2 ^ multiplier) (bu + suc (length (groups k (n / 128))) - 1) rest
    finish = ground (arith, split_group n multiplier)

-- `DecodeLength` reads back every length of at most 268435455 that `encodeLength` wrote, says how many
-- bytes it took, and leaves what follows.
pub decode_length-encode_length :
    (n : ℕ) (rest : Bytes)
    → n ≤ 268435455
    → decode_length (encode_length n ++ rest) ≡ done n (length (encode_length n)) rest
unfolding decode_length
decode_length-encode_length n rest h = rw (encode_length-groups 3 n (omega arith)) (
    decode_length_loop-groups 3 n 0 0 1 rest (omega arith) (omega arith) (omega arith) (omega arith)
    ∙ ground arith)
