-- ===== src/Modules/PriorityMessaging.antt =====
-- broker/modules/routing/priority_messaging.go: PUBLISH packets wait in queues by priority, and old
-- ones are promoted. The condition variable, the ticker and the stop channel are not modelled: a
-- round of a loop is a function, and theorems range over the orders in which rounds happen.
pub mod Conservation
pub mod Aging
pub mod Delivery
mod Runs
use mqtt_protocol_v.Common.{
  ℕ, ◌+◌, ◌-◌, Bool, true, false, ◌&&◌, Option, none, some, List, [], ◌∷◌, ◌++◌, leb, if◌then◌else◌,
}
use mqtt_protocol_v.Common.Equality.{Bytes, bytes_eq, codes}
use mqtt_protocol_v.Packets.Packet.{Packet}
use mqtt_protocol_v.Packets.UserProperty.{UserProperty}

-- `PriorityUrgent` and `PriorityHigh`; any other priority is normal
abbrev pub priority_urgent : Bytes
priority_urgent = codes "Urgent"

abbrev pub priority_high : Bytes
priority_high = codes "High"

abbrev pub priority_normal : Bytes
priority_normal = codes "Normal"

-- the property that marks a packet which the scheduler has already handled
abbrev pub processed_mark : UserProperty
processed_mark = record { key = codes "priority-processed"; val = codes "true" }

-- `PriorityMessagingConfig`, without the interval of its ticker: durations, not negative
pub record PriorityConfig : Type 0 where
  pub aging_threshold_high : ℕ
  pub aging_threshold_normal : ℕ

-- `prioritizedPacket`, with the id of its client
pub record QueuedPacket : Type 0 where
  pub client : Bytes
  pub pk : Packet
  pub enqueued : ℕ

-- `PriorityMessagingHook`
pub record PriorityHook : Type 0 where
  pub config : PriorityConfig
  pub urgent : List QueuedPacket
  pub high : List QueuedPacket
  pub normal : List QueuedPacket

abbrev pub is_processed : UserProperty → Bool
is_processed p = bytes_eq p.key (codes "priority-processed") && bytes_eq p.val (codes "true")

-- The loop of `OnPublish` over the user properties: `none` where the packet is marked as processed,
-- else the last priority given.
priority_of : List UserProperty → Bytes → Option Bytes
priority_of [] priority = some priority
priority_of (p ∷ ps) priority =
    let rest = priority_of ps (if bytes_eq p.key (codes "priority") then p.val else priority) in
    if is_processed p then none else rest

-- the switch of `OnPublish`
unfoldable pub enqueue : PriorityHook → Bytes → QueuedPacket → PriorityHook
enqueue h priority pp =
    if bytes_eq priority priority_urgent
    then record h { urgent = h.urgent ++ pp ∷ [] }
    else if bytes_eq priority priority_high
    then record h { high = h.high ++ pp ∷ [] }
    else record h { normal = h.normal ++ pp ∷ [] }

-- `OnPublish`: the hook afterwards, and whether the packet goes on to the normal routing (`false` is
-- `CodeSuccessIgnore`).
unfoldable pub on_publish : PriorityHook → Bytes → Packet → ℕ → PriorityHook × Bool
unfolding priority_of enqueue
on_publish h cl pk now = elim (priority_of pk.properties.user priority_normal) [
  | none ↦ (h, true)
  | some priority ↦ (enqueue h priority (record { client = cl; pk = pk; enqueued = now }), false)
]

-- What a round of `schedulerLoop` takes off the queues; `none` where it waits.
unfoldable pub next_packet : PriorityHook → Option (QueuedPacket × PriorityHook)
next_packet h = elim h.urgent [
  | pp ∷ rest ↦ some (pp, record h { urgent = rest })
  | [] ↦ elim h.high [
    | pp ∷ rest ↦ some (pp, record h { high = rest })
    | [] ↦ elim h.normal [ pp ∷ rest ↦ some (pp, record h { normal = rest }) | [] ↦ none ]
  ]
]

-- the packet that `schedulerLoop` injects
unfoldable pub mark : Packet → Packet
mark pk = record pk {
  properties = record (pk.properties) { user = pk.properties.user ++ processed_mark ∷ [] };
}

-- A packet that has waited for at least a threshold.
abbrev pub starved : ℕ → ℕ → QueuedPacket → Bool
starved now threshold pp = leb (pp.enqueued + threshold) now

-- the two loops of `agingLoop`: what is appended to the urgent queue, and what stays
unfoldable pub promoted : ℕ → ℕ → List QueuedPacket → List QueuedPacket
promoted now threshold [] = []
promoted now threshold (pp ∷ pps) =
    let rest = promoted now threshold pps in if starved now threshold pp then pp ∷ rest else rest

kept : ℕ → ℕ → List QueuedPacket → List QueuedPacket
kept now threshold [] = []
kept now threshold (pp ∷ pps) =
    let rest = kept now threshold pps in if starved now threshold pp then rest else pp ∷ rest

-- A tick of `agingLoop`.
unfoldable pub age : PriorityHook → ℕ → PriorityHook
unfolding promoted kept
age h now =
    let n = h.config.aging_threshold_normal in
    let hi = h.config.aging_threshold_high in
    record h {
      normal = kept now n h.normal;
      high = kept now hi h.high;
      urgent = (h.urgent ++ promoted now n h.normal) ++ promoted now hi h.high;
    }
