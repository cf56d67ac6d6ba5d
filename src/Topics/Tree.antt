-- ===== src/Topics/Tree.antt =====
-- The tree of particles. A particle's key stands in its parent's map; the pointer to the parent is
-- left out, as `trim` only follows the path that its caller has just walked.
pub mod Nodes
use mqtt_protocol_v.Common.{
  ℕ, ◌+◌, Bool, true, false, ◌&&◌, Option, none, some, List, [], ◌∷◌, ◌==◌, length, if◌then◌else◌,
}
use mqtt_protocol_v.Common.Equality.{Bytes, bytes_eq}
use mqtt_protocol_v.Topics.Stores.{Subscriptions, SharedSubscriptions, InlineSubscriptions}

-- what a particle holds itself
pub record Node : Type 0 where
  pub subscriptions : Subscriptions
  pub shared : SharedSubscriptions
  pub inline : InlineSubscriptions
  pub retain_path : Bytes

-- `newParticle`
abbrev pub new_node : Node
new_node = record { subscriptions = []; shared = []; inline = []; retain_path = [] }

mutual
  pub data Particle : Type 0 where
    particle : Node → Particles → Particle

  pub data Particles : Type 0 where
    leaf : Particles
    child : Bytes → Particle → Particles → Particles

abbrev pub new_particle : Particle
new_particle = particle new_node leaf

-- `particles.get`
unfoldable pub get : Bytes → Particles → Option Particle
get key leaf = none
get key (child k p ps) = if bytes_eq k key then some p else get key ps

-- `particles.add`, and the write through a pointer to a child
unfoldable pub put : Bytes → Particle → Particles → Particles
put key p leaf = child key p leaf
put key p (child k q ps) = if bytes_eq k key then child key p ps else child k q (put key p ps)

-- `particles.delete`
unfoldable pub remove : Bytes → Particles → Particles
remove key leaf = leaf
remove key (child k q ps) =
    let rest = remove key ps in if bytes_eq k key then rest else child k q rest

-- the particle found or made
abbrev pub or_new : Option Particle → Particle
or_new none = new_particle
or_new (some p) = p

-- `set` along the keys of a topic, and a change of the particle that it returns
unfoldable pub change : List Bytes → (Node → Node) → Particle → Particle
change [] f (particle n ps) = particle (f n) ps
change (key ∷ keys) f (particle n ps) =
    particle n (put key (change keys f (or_new (get key ps))) ps)

-- `seek`
unfoldable pub seek : List Bytes → Particle → Option Particle
seek [] p = some p
seek (key ∷ keys) (particle n ps) = elim (get key ps) [ none ↦ none | some p ↦ seek keys p ]

-- `SharedSubscriptions.Len`: the clients of all groups
unfoldable pub shared_len : SharedSubscriptions → ℕ
shared_len [] = 0
shared_len ((group, subs) ∷ groups) = length subs + shared_len groups

-- the condition of the loop of `trim`
unfoldable pub is_empty_node : Node → Bool
unfolding shared_len
is_empty_node n =
    length n.retain_path == 0 && length n.subscriptions + shared_len n.shared + length n.inline == 0

is_empty : Particle → Bool
unfolding is_empty_node
is_empty (particle n leaf) = is_empty_node n
is_empty (particle n (child k p ps)) = false

-- A change of the particle at the end of the keys, where it is there, and `trim` from it upwards.
unfoldable pub change_trim : List Bytes → (Node → Node) → Particle → Particle
unfolding is_empty
change_trim [] f (particle n ps) = particle (f n) ps
change_trim (key ∷ keys) f (particle n ps) = elim (get key ps) [
  | none ↦ particle n ps
  | some p ↦
      let p' = change_trim keys f p in
      if is_empty p' then particle n (remove key ps) else particle n (put key p' ps)
]

-- what the index holds at a path; nothing where there is no particle
abbrev pub node_of : Option Particle → Node
node_of none = new_node
node_of (some (particle n ps)) = n

unfoldable pub node_at : List Bytes → Particle → Node
unfolding seek
node_at keys p = node_of (seek keys p)
