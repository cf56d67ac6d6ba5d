-- ===== src/Session/Inflight/Listing.antt =====
-- `Len`, `Clone`, `GetAll` and `NextImmediate` of broker/inflight.go. `sort.Slice` may leave messages
-- of one key in any order, and here they stay in the order of the map, which is any order too.
use mqtt_protocol_v.Common.{
  ℕ, ◌-◌, ◌%◌, ◌^◌, Bool, true, ◌||◌, not, Option, none, some, List, [], ◌∷◌, leb, if◌then◌else◌,
}
use mqtt_protocol_v.Common.Int.{ℤ, pos, negsuc, ltb_ℤ}
use mqtt_protocol_v.Common.Map.{Map}
use mqtt_protocol_v.Packets.Packet.{Packet}
use mqtt_protocol_v.Session.Inflight.{Inflight, new_inflights}

-- `Clone`: the messages, without the quotas
unfoldable pub clone : Inflight → Inflight
clone i = record new_inflights { internal = i.internal }

-- `uint16` of a time
unfoldable pub low_bits : ℤ → ℕ
low_bits (pos n) = n % 2 ^ 16
low_bits (negsuc n) = 2 ^ 16 - 1 - n % 2 ^ 16

-- whether a message waits for quota
unfoldable pub is_immediate : Packet → Bool
is_immediate pk = ltb_ℤ pk.expiry (pos 0)

-- the loop of `GetAll`
unfoldable pub collect : Bool → Map ℕ Packet → List Packet
collect immediate [] = []
collect immediate ((id, v) ∷ m) =
    let rest = collect immediate m in if not immediate || is_immediate v then v ∷ rest else rest

-- `sort.Slice`
unfoldable pub place : Packet → List Packet → List Packet
place v [] = v ∷ []
place v (u ∷ us) =
    let rest = place v us in
    if leb (low_bits v.created) (low_bits u.created) then v ∷ u ∷ us else u ∷ rest

unfoldable pub sort : List Packet → List Packet
sort [] = []
sort (v ∷ vs) = place v (sort vs)

-- `GetAll`
unfoldable pub get_all : Inflight → Bool → List Packet
get_all i immediate = sort (collect immediate i.internal)

abbrev first : List Packet → Option Packet
first [] = none
first (v ∷ vs) = some v

-- `NextImmediate`
unfoldable pub next_immediate : Inflight → Option Packet
next_immediate i = first (get_all i true)
