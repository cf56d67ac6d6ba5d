-- ===== src/Session/Aliases.antt =====
-- Topic aliases of broker/topics.go, without their locks.
pub mod Agreement
use mqtt_protocol_v.Common.{
  ℕ, ◌+◌, ◌%◌, ◌^◌, Bool, true, false, ◌&&◌, Option, none, some, List, [], ltb, ◌==◌, if◌then◌else◌,
}
use mqtt_protocol_v.Common.Equality.{Bytes, bytes_eq, nat_eq, bytes_instance}
use mqtt_protocol_v.Common.Map
use mqtt_protocol_v.Common.Map.{Map}

-- `InboundTopicAliases`
pub record InboundAliases : Type 0 where
  pub internal : Map ℕ Bytes
  pub maximum : ℕ

-- `OutboundTopicAliases`
pub record OutboundAliases : Type 0 where
  pub internal : Map Bytes ℕ
  pub cursor : ℕ
  pub maximum : ℕ

-- `NewInboundTopicAliases` and `NewOutboundTopicAliases`
abbrev pub new_inbound : ℕ → InboundAliases
new_inbound maximum = record { internal = []; maximum = maximum }

abbrev pub new_outbound : ℕ → OutboundAliases
new_outbound maximum = record { internal = []; cursor = 0; maximum = maximum }

-- the end of `InboundTopicAliases.Set`, by the entry for the alias
set_existing : InboundAliases → ℕ → Bytes → Option Bytes → InboundAliases × Bytes
set_existing a id topic none = (record a { internal = Map.insert id topic a.internal }, topic)
set_existing a id topic (some existing) =
    if bytes_eq topic []
    then (a, existing)
    else (record a { internal = Map.insert id topic a.internal }, topic)

-- `InboundTopicAliases.Set`: the topic that an alias and a topic stand for.
unfoldable pub set_inbound : InboundAliases → ℕ → Bytes → InboundAliases × Bytes
unfolding set_existing
set_inbound a id topic =
    if a.maximum == 0 then (a, topic) else set_existing a id topic (Map.lookup id a.internal)

-- the end of `OutboundTopicAliases.Set`, by the entry for the topic
set_known : OutboundAliases → Bytes → Option ℕ → OutboundAliases × (ℕ × Bool)
set_known a topic (some i) = (a, (i, true))
set_known a topic none =
    let i = a.cursor in
    let alias = (i % 2 ^ 16 + 1) % 2 ^ 16 in
    if ltb a.maximum ((i + 1) % 2 ^ 32) then (a, (0, false)) else (
      record a { internal = Map.insert topic alias a.internal; cursor = (i + 1) % 2 ^ 32 },
      (alias, false),
    )

-- `OutboundTopicAliases.Set`: the alias for a topic, 0 where there is none, and whether the receiver
-- knows it already.
unfoldable pub set_outbound : OutboundAliases → Bytes → OutboundAliases × (ℕ × Bool)
unfolding set_known
set_outbound a topic =
    if a.maximum == 0 then (a, (0, false)) else set_known a topic (Map.lookup topic a.internal)
