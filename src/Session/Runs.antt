-- ===== src/Session/Runs.antt =====
-- Runs of a session's stores, and their theorems at concrete inputs.
use mqtt_protocol_v.Common.{◌≡◌, refl, List, [], ◌∷◌, arith}
use mqtt_protocol_v.Common.Equality.{Bytes, codes}
use mqtt_protocol_v.Packets.Packet.{no_packet}
use mqtt_protocol_v.Session.Aliases.{new_inbound, new_outbound}
use mqtt_protocol_v.Session.Aliases.Agreement.{received, received_lem}
use mqtt_protocol_v.Common.{some}
use mqtt_protocol_v.Common.Map
use mqtt_protocol_v.Packets.Codes.{err_quota_exceeded}
use mqtt_protocol_v.Packets.Errors.{coded, ok, err}
use mqtt_protocol_v.Session.PacketIds.{next_packet_id}
use mqtt_protocol_v.Session.PacketIds.Search.{IsNext, next_packet_id-IsNext}
use mqtt_protocol_v.Session.Inflight.{
  Inflight, get, set, Call, set_call, take_receive, give_receive, reset_receive, new_inflights, run,
}

abbrev topics : List Bytes
topics = codes "a" ∷ codes "b" ∷ codes "a" ∷ codes "c" ∷ []

received_lem_example :
    received (record { sender = new_outbound 2; receiver = new_inbound 2 }) topics ≡ topics
received_lem_example = received_lem 2 topics (omega arith)

abbrev calls : List Call
calls = reset_receive 2 ∷ give_receive ∷ take_receive ∷ set_call no_packet ∷ []

quota_left : (run new_inflights calls).receive_quota ≡ 1
unfolding run
quota_left = refl

abbrev two_under_way : Inflight
two_under_way =
    (set (set new_inflights (record no_packet { packet_id = 1 })).0
      (record no_packet { packet_id = 3 })).0

next_wire :
    (next_packet_id two_under_way 3 2 ≡ some (ok 2))
    × (next_packet_id two_under_way 1 1 ≡ some (err (coded err_quota_exceeded)))
unfolding next_packet_id get set Map.lookup Map.insert
next_wire = (refl, refl)

next_packet_id-IsNext_example : IsNext two_under_way 3 (next_packet_id two_under_way 3 2)
next_packet_id-IsNext_example = next_packet_id-IsNext two_under_way 3 2 (omega arith) (omega arith)
