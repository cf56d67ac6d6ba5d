-- ===== src/Session/Inflight.antt =====
-- broker/inflight.go: the messages of a client that are under way, and its two quotas. The locks are
-- left out; a quota is never negative, as it is reset only to the receive maximum of a connection.
pub mod Listing
use mqtt_protocol_v.Common.{
  ℕ, ◌+◌, ◌-◌, ◌≤◌, Bool, not, Option, List, [], ◌∷◌, arith, ltb, if◌then◌else◌,
}
use mqtt_protocol_v.Common.Equality.{nat_eq}
use mqtt_protocol_v.Common.Map
use mqtt_protocol_v.Common.Map.{Map, has, lookup-insert}
use mqtt_protocol_v.Packets.Packet.{Packet}

pub record Inflight : Type 0 where
  pub internal : Map ℕ Packet
  pub receive_quota : ℕ
  pub send_quota : ℕ
  pub maximum_receive_quota : ℕ
  pub maximum_send_quota : ℕ

-- `NewInflights`
abbrev pub new_inflights : Inflight
new_inflights = record {
  internal = [];
  receive_quota = 0;
  send_quota = 0;
  maximum_receive_quota = 0;
  maximum_send_quota = 0;
}

-- `Set`: whether the id is new
unfoldable pub set : Inflight → Packet → Inflight × Bool
set i m = (
  record i { internal = Map.insert m.packet_id m i.internal },
  not (has (Map.lookup m.packet_id i.internal)),
)

-- `Get`
unfoldable pub get : Inflight → ℕ → Option Packet
get i id = Map.lookup id i.internal

-- `Delete`: whether the message was there
unfoldable pub delete : Inflight → ℕ → Inflight × Bool
delete i id = (record i { internal = Map.delete id i.internal }, has (Map.lookup id i.internal))

unfoldable pub decrease_receive_quota : Inflight → Inflight
decrease_receive_quota i =
    if ltb 0 i.receive_quota then record i { receive_quota = i.receive_quota - 1 } else i

unfoldable pub increase_receive_quota : Inflight → Inflight
increase_receive_quota i =
    if ltb i.receive_quota i.maximum_receive_quota
    then record i { receive_quota = i.receive_quota + 1 }
    else i

unfoldable pub reset_receive_quota : Inflight → ℕ → Inflight
reset_receive_quota i n = record i { receive_quota = n; maximum_receive_quota = n }

unfoldable pub decrease_send_quota : Inflight → Inflight
decrease_send_quota i = if ltb 0 i.send_quota then record i { send_quota = i.send_quota - 1 } else i

unfoldable pub increase_send_quota : Inflight → Inflight
increase_send_quota i =
    if ltb i.send_quota i.maximum_send_quota then record i { send_quota = i.send_quota + 1 } else i

unfoldable pub reset_send_quota : Inflight → ℕ → Inflight
reset_send_quota i n = record i { send_quota = n; maximum_send_quota = n }

-- a call of one of the operations
pub data Call : Type 0 where
  set_call : Packet → Call
  delete_call : ℕ → Call
  take_receive give_receive take_send give_send : Call
  reset_receive reset_send : ℕ → Call

unfoldable pub step : Inflight → Call → Inflight
unfolding set delete decrease_receive_quota increase_receive_quota reset_receive_quota
    decrease_send_quota increase_send_quota reset_send_quota
step i (set_call m) = (set i m).0
step i (delete_call id) = (delete i id).0
step i take_receive = decrease_receive_quota i
step i give_receive = increase_receive_quota i
step i take_send = decrease_send_quota i
step i give_send = increase_send_quota i
step i (reset_receive n) = reset_receive_quota i n
step i (reset_send n) = reset_send_quota i n

unfoldable pub run : Inflight → List Call → Inflight
unfolding step
run i [] = i
run i (c ∷ cs) = run (step i c) cs

-- Neither quota is above its maximum.
abbrev pub IsWithin : Inflight → Type 0
IsWithin i = (i.receive_quota ≤ i.maximum_receive_quota) × (i.send_quota ≤ i.maximum_send_quota)

pub step-IsWithin : (i : Inflight) (c : Call) → IsWithin i → IsWithin (step i c)
unfolding step set delete decrease_receive_quota increase_receive_quota reset_receive_quota
    decrease_send_quota increase_send_quota reset_send_quota
step-IsWithin i (set_call m) w = w
step-IsWithin i (delete_call id) w = w
step-IsWithin i take_receive w = ground arith
step-IsWithin i give_receive w = ground arith
step-IsWithin i take_send w = ground arith
step-IsWithin i give_send w = ground arith
step-IsWithin i (reset_receive n) w = ground arith
step-IsWithin i (reset_send n) w = ground arith

run_keeps : (i : Inflight) (cs : List Call) → IsWithin i → IsWithin (run i cs)
unfolding run
run_keeps i [] w = w
run_keeps i (c ∷ cs) w = run_keeps (step i c) cs (step-IsWithin i c w)

-- Whatever calls follow on a new store, in whatever order, neither quota exceeds its maximum.
pub run-IsWithin : (cs : List Call) → IsWithin (run new_inflights cs)
run-IsWithin cs = run_keeps new_inflights cs (omega arith, omega arith)
