-- ===== src/Topics/Messages.antt =====
-- `Messages` and `scanMessages`: the retained messages that match a filter.
pub mod Retained
use mqtt_protocol_v.Common.{
  ℕ, ◌+◌, Bool, true, false, ◌&&◌, ◌||◌, not, Option, none, some, List, [], ◌∷◌, ◌++◌, ◌==◌, length,
  if◌then◌else◌,
}
use mqtt_protocol_v.Common.Equality.{Bytes, bytes_eq, bytes_instance}
use mqtt_protocol_v.Common.Map
use mqtt_protocol_v.Common.Map.{Map}
use mqtt_protocol_v.Common.Split.{contains}
use mqtt_protocol_v.Packets.Packet.{Packet}
use mqtt_protocol_v.Topics.Levels.{isolate_particle}
use mqtt_protocol_v.Topics.Filters.{sys_prefix}
use mqtt_protocol_v.Topics.Tree.{Node, Particle, particle, Particles, leaf, child}
use mqtt_protocol_v.Topics.Scan.{plus, hash}
use mqtt_protocol_v.Topics.Index.{TopicsIndex}

-- a message found under its topic, or nothing
abbrev found : Option Packet → List Packet
found none = []
found (some pk) = pk ∷ []

-- the message of a particle that the end of the filter matched
abbrev retained_at : Map Bytes Packet → Node → List Packet
retained_at retained n =
    if bytes_eq n.retain_path [] then [] else found (Map.lookup n.retain_path retained)

abbrev is_wild : Bytes → Bool
is_wild key = bytes_eq key plus || bytes_eq key hash

-- whether the scan goes below a particle that a wildcard matched
abbrev goes_on : Bytes → Bool → Bool
goes_on key has_next = has_next || bytes_eq key hash

-- `scanMessages` from a particle, for a filter with a wildcard; `scan_children` is the loop over all
-- children, and `scan_child` what follows for the one with the key.
mutual
  scan_below : Bytes → Map Bytes Packet → ℕ → Particle → List Packet
  scan_below filter retained d (particle n ps) =
      let (key, has_next) = isolate_particle filter d in
      let all = scan_children filter retained d key has_next ps in
      let one = scan_child filter retained d key has_next ps in if is_wild key then all else one

  scan_children : Bytes → Map Bytes Packet → ℕ → Bytes → Bool → Particles → List Packet
  scan_children filter retained d key has_next leaf = []
  scan_children filter retained d key has_next (child k (particle n below) ps) =
      let deeper = scan_below filter retained (d + 1) (particle n below) in
      let rest = scan_children filter retained d key has_next ps in
      if d == 0 && bytes_eq k sys_prefix
      then rest
      else (if has_next then [] else retained_at retained n)
        ++ (if goes_on key has_next then deeper else [])
        ++ rest

  scan_child : Bytes → Map Bytes Packet → ℕ → Bytes → Bool → Particles → List Packet
  scan_child filter retained d key has_next leaf = []
  scan_child filter retained d key has_next (child k (particle n below) ps) =
      let deeper = scan_below filter retained (d + 1) (particle n below) in
      let rest = scan_child filter retained d key has_next ps in
      if bytes_eq k key
      then (if has_next then deeper else found (Map.lookup n.retain_path retained))
      else rest

-- `Messages`
unfoldable pub messages : TopicsIndex → Bytes → List Packet
unfolding scan_below
messages x filter =
    if length filter == 0 || length x.retained == 0
    then []
    else if not (contains b'#' filter) && not (contains b'+' filter)
    then found (Map.lookup filter x.retained)
    else scan_below filter x.retained 0 x.root
