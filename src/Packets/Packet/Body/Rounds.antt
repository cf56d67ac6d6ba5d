-- ===== src/Packets/Packet/Body/Rounds.antt =====
-- The loops of the decoders return: a round takes bytes.
use mqtt_protocol_v.Common.{ℕ, ◌+◌, ◌≤◌, ◌≡◌, refl, Option, some}
use mqtt_protocol_v.Packets.Codes.{Code}
use mqtt_protocol_v.Packets.Errors.{Result, ok, err}
use mqtt_protocol_v.Packets.Codec.Advance.{Advances}
use mqtt_protocol_v.Packets.Packet.Body.{wrap}

pub wrap-Advances :
    {A : Type 0} (c : Code) (k : ℕ) (r : Result (A × ℕ)) → Advances k r → Advances k (wrap c r)
wrap-Advances c k (err e) h = tt
wrap-Advances c k (ok (a, next)) h = h

-- a round and what follows it
pub round_returns :
    {A B : Type 0} (offset : ℕ) (r : Result (A × ℕ)) (go : A → ℕ → Option (Result B))
    → Advances (offset + 1) r
    → ((a : A) (next : ℕ) → offset + 1 ≤ next → (s : Result B) × (go a next ≡ some s))
    → (s : Result B) × ((elim r [ err e ↦ some (err e) | ok (a, next) ↦ go a next ]) ≡ some s)
round_returns offset (err e) go h later = (err e, refl)
round_returns offset (ok (a, next)) go h later = later a next h
