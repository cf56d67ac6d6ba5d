-- ===== src/Modules/PriorityMessaging/Runs.antt =====
-- Runs of the priority queues, and their theorems at concrete inputs.
use mathlib.Core.List.{Perm}
use mqtt_protocol_v.Common.{ℕ, ◌≡◌, refl, some, [], ◌∷◌}
use mqtt_protocol_v.Common.Equality.{Bytes, bytes_eq, codes}
use mqtt_protocol_v.Packets.Packet.{Packet, no_packet}
use mqtt_protocol_v.Modules.PriorityMessaging.{
  PriorityHook, QueuedPacket, priority_urgent, on_publish, next_packet, age, promoted,
}
use mqtt_protocol_v.Modules.PriorityMessaging.Conservation.{contents, age-Perm}
use mqtt_protocol_v.Modules.PriorityMessaging.Aging.{starved_delivery}
use mqtt_protocol_v.Modules.PriorityMessaging.Delivery.{publish, deliver, run, taken}

abbrev cl : Bytes
cl = codes "sensor"

abbrev with_priority : Bytes → Packet
with_priority p = record no_packet {
  properties = record (no_packet.properties) {
    user = record { key = codes "priority"; val = p } ∷ [];
  };
}

abbrev waiting : ℕ → QueuedPacket
waiting t = record { client = cl; pk = no_packet; enqueued = t }

-- one urgent packet, and two normal ones of which the first has waited long
abbrev busy : PriorityHook
busy = record {
  config = record { aging_threshold_high = 3; aging_threshold_normal = 5 };
  urgent = waiting 9 ∷ [];
  high = [];
  normal = waiting 1 ∷ waiting 8 ∷ [];
}

urgent_first :
    (on_publish busy cl (with_priority priority_urgent) 10).0.urgent
    ≡ waiting 9 ∷ record { client = cl; pk = with_priority priority_urgent; enqueued = 10 } ∷ []
unfolding on_publish bytes_eq
urgent_first = refl

aged : (age busy 10).urgent ≡ waiting 9 ∷ waiting 1 ∷ []
unfolding age
aged = refl

age-Perm_example : Perm (contents (age busy 10)) (contents busy)
age-Perm_example = age-Perm busy 10

starved_delivery_example :
    taken (
      next_packet
        (run (age busy 10) (publish cl (with_priority priority_urgent) 10 ∷ deliver ∷ [])))
    ≡ some (waiting 1)
unfolding promoted
starved_delivery_example =
    starved_delivery busy 10 [] (waiting 8 ∷ []) (waiting 1)
      (publish cl (with_priority priority_urgent) 10 ∷ deliver ∷ []) refl refl refl
