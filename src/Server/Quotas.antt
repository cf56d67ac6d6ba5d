-- ===== src/Server/Quotas.antt =====
-- The quotas of the clients, whatever packets they send.
pub mod Packets
pub mod Requests
use mqtt_protocol_v.Common.{
  ℕ, ◌≡◌, refl, Bool, true, false, not, ◌||◌, Option, none, some, ◌==◌, ltb, arith, ==_iff, if_both,
  Bool-cases, inl, inr, if◌then◌else◌,
}
use mqtt_protocol_v.Common.Int.{ℤ}
use mqtt_protocol_v.Packets.Codes.{Code}
use mqtt_protocol_v.Packets.Packet.{Packet, Subscription}
use mqtt_protocol_v.Session.Inflight.{
  Inflight, IsWithin, step, step-IsWithin, set, delete, set_call, delete_call, take_receive,
  give_receive, take_send, give_send,
}
use mqtt_protocol_v.Server.Failures.{Failure}
use mqtt_protocol_v.Server.State.{
  World, Client, Env, Action, ◌>>◌, update_client, with_inflight, notify,
}
use mqtt_protocol_v.Server.Writing.{write_packet, stop, disconnect_client}
use mqtt_protocol_v.Server.Writing.Effects.{Silent, write_packet-Silent, disconnect_client-Silent}
use mqtt_protocol_v.Server.Acks.{drop_inflight, complete, end_flow, under_way}
use mqtt_protocol_v.Server.Delivery.{publish_to_subscribers, retain, publish_retained_to_client}
use mqtt_protocol_v.Server.Delivery.Keeping.{Stable}
use mqtt_protocol_v.Server.Delivery.Spreading.{
  publish_to_subscribers-Holds, publish_retained_to_client-Holds, retain-Holds,
}

-- no client's quota is above its maximum
unfoldable pub AreWithin : World → Type 0
AreWithin w = (r : ℕ) → IsWithin (w.heap r).inflight

-- an answer that leaves them so
pub Answers : Option Failure × World → Type 0
Answers answer = AreWithin answer.1

pub answered : (e : Option Failure) (w : World) → AreWithin w → Answers (e, w)
unfolding Answers
answered e w h = h

pub left : (answer : Option Failure × World) → Answers answer → AreWithin answer.1
unfolding Answers
left answer h = h

-- the same clients have the same quotas
pub same_heap-AreWithin : (w w' : World) → w'.heap ≡ w.heap → AreWithin w → AreWithin w'
unfolding AreWithin
same_heap-AreWithin w w' same h = rw same h

pub IsWithin-Stable : Stable IsWithin (λ n. Unit)
unfolding step
IsWithin-Stable = record {
  fresh = λ i n q free. tt;
  setting = λ i m free q. q;
  deleting = λ i n free q. q;
  taking = λ i q. step-IsWithin i take_send q;
  giving = λ i q. step-IsWithin i give_send q;
}

pub with_inflight-AreWithin :
    (cl : ℕ) (f : Inflight → Inflight) (w : World)
    → ((i : Inflight) → IsWithin i → IsWithin (f i))
    → AreWithin w
    → AreWithin (with_inflight cl f w)
unfolding AreWithin
with_inflight-AreWithin cl f w step h r = elim (Bool-cases (r == cl)) [
  | inl here ↦ rw here (step (w.heap r).inflight (h r))
  | inr apart ↦ rw apart (h r)
]

pub update_client-AreWithin :
    (cl : ℕ) (f : Client → Client) (w : World)
    → ((c : Client) → (f c).inflight ≡ c.inflight)
    → AreWithin w
    → AreWithin (update_client cl f w)
unfolding AreWithin
update_client-AreWithin cl f w same h r = elim (Bool-cases (r == cl)) [
  | inl here ↦ rw here (rw (same (w.heap r)) (h r))
  | inr apart ↦ rw apart (h r)
]

pub Silent-AreWithin : (w w' : World) → Silent w w' → AreWithin w → AreWithin w'
unfolding AreWithin
Silent-AreWithin w w' (topics, same) h r = rw (same r).1 (h r)

pub write_packet-AreWithin :
    (env : Env) (cl : ℕ) (pk : Packet) (w : World)
    → AreWithin w
    → Answers (write_packet env cl pk w)
unfolding Answers
write_packet-AreWithin env cl pk w =
    Silent-AreWithin w (write_packet env cl pk w).1 (write_packet-Silent env cl pk w)

pub disconnect_client-AreWithin :
    (env : Env) (cl : ℕ) (code : Code) (w : World)
    → AreWithin w
    → Answers (disconnect_client env cl code w)
unfolding Answers
disconnect_client-AreWithin env cl code w =
    Silent-AreWithin w (disconnect_client env cl code w).1 (disconnect_client-Silent env cl code w)

-- a chain of two steps
pub then-AreWithin :
    (answer : Option Failure × World) (k : Action)
    → Answers answer
    → ((w : World) → AreWithin w → Answers (k w))
    → Answers (answer >> k)
unfolding Answers
then-AreWithin (none, w) k h onward = onward w h
then-AreWithin (some e, w) k h onward = h

pub publish_to_subscribers-AreWithin :
    (env : Env) (pk : Packet) (w : World)
    → AreWithin w
    → AreWithin (publish_to_subscribers env pk w)
unfolding AreWithin
publish_to_subscribers-AreWithin env pk w h r =
    (publish_to_subscribers-Holds IsWithin-Stable r (w.heap r).inline env pk w (refl, h r)).1

pub retain-AreWithin :
    (env : Env) (cl : ℕ) (pk : Packet) (w : World) → AreWithin w → AreWithin (retain env cl pk w)
unfolding AreWithin
retain-AreWithin env cl pk w h r =
    (retain-Holds IsWithin-Stable r (w.heap r).inline env cl pk w (refl, h r)).1

pub publish_retained_to_client-AreWithin :
    (env : Env) (cl : ℕ) (sub : Subscription) (existed : Bool) (w : World)
    → AreWithin w
    → AreWithin (publish_retained_to_client env cl sub existed w)
unfolding AreWithin
publish_retained_to_client-AreWithin env cl sub existed w h r =
    (publish_retained_to_client-Holds IsWithin-Stable r (w.heap r).inline env cl sub existed w
      (refl, h r)).1

pub drop_inflight-AreWithin :
    (cl id : ℕ) (w : World) → AreWithin w → AreWithin (drop_inflight cl id w)
unfolding drop_inflight delete
drop_inflight-AreWithin cl id w h =
    let gone : AreWithin (with_inflight cl (λ i. (delete i id).0) w) =
      with_inflight-AreWithin cl (λ i. (delete i id).0) w (λ i q. q) h in
    if_both AreWithin _
      (same_heap-AreWithin (with_inflight cl (λ i. (delete i id).0) w) _ refl gone) gone

pub complete-AreWithin :
    (cl : ℕ) (pk : Packet) (w : World) → AreWithin w → AreWithin (complete cl pk w)
unfolding complete
complete-AreWithin cl pk w h =
    let gone = drop_inflight-AreWithin cl pk.packet_id w h in
    if_both AreWithin _ (same_heap-AreWithin (drop_inflight cl pk.packet_id w) _ refl gone) gone
