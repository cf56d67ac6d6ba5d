-- ===== src/Topics/Levels.antt =====
-- `isolateParticle`, and the levels that the loops of broker/topics.go pass through with it.
pub mod Splitting
use mqtt_protocol_v.Common.{
  ℕ, zero, suc, ◌+◌, Bool, true, false, Option, none, some, List, [], ◌∷◌, take, drop, length,
}
use mqtt_protocol_v.Common.Equality.{Bytes}
use mqtt_protocol_v.Common.Split.{index_of}

-- The loop of `isolateParticle`, by the rounds left and the position of the next slash: a level, and
-- whether more follow. The last level stands for those beyond it.
isolate : ℕ → Bytes → Option ℕ → Bytes × Bool
isolate d filter none = (filter, false)
isolate zero filter (some end) = (take end filter, true)
isolate (suc d) filter (some end) =
    let rest = drop (suc end) filter in isolate d rest (index_of b'/' rest)

-- `isolateParticle`
unfoldable pub isolate_particle : Bytes → ℕ → Bytes × Bool
unfolding isolate
isolate_particle filter d = isolate d filter (index_of b'/' filter)

-- a key, and what follows where there is a next one
abbrev add_key : Bytes × Bool → List Bytes → List Bytes
add_key (key, true) rest = key ∷ rest
add_key (key, false) rest = key ∷ []

-- The keys that `set`, `seek` and the scans take from a topic, from level `d` on, until there is no
-- next one. A topic has at most one level more than it has bytes, which bounds the rounds.
keys_from : ℕ → Bytes → ℕ → List Bytes
keys_from zero topic d = []
keys_from (suc fuel) topic d = add_key (isolate_particle topic d) (keys_from fuel topic (d + 1))

unfoldable pub levels : Bytes → ℕ → List Bytes
unfolding keys_from isolate_particle
levels topic d = keys_from (length topic + 1) topic d
