-- ===== src/Server/Publishing/Once.antt =====
-- QoS 2: a message goes on once, however often it is sent again before its flow ends.
use mqtt_protocol_v.Common.{
  ℕ, ◌≡◌, ◌≢◌, refl, true, false, not, ◌||◌, Option, none, some, ◌==◌, arith, Bool-cases, inl, inr,
  if◌then◌else◌, if_both, ltb, ==_iff, ◌∙◌,
}
use mqtt_protocol_v.Common.Equality.{nat_eq}
use mqtt_protocol_v.Common.Map.{lookup-insert, lookup-delete}
use mqtt_protocol_v.Packets.Types
use mqtt_protocol_v.Packets.Codes.{err_receive_maximum, err_not_authorized}
use mqtt_protocol_v.Packets.Packet.{Packet}
use mqtt_protocol_v.Session.Inflight.{
  Inflight, get, set, delete, decrease_send_quota, increase_send_quota,
}
use mqtt_protocol_v.Topics.Filters.{is_valid_filter}
use mqtt_protocol_v.Server.Hooks.{on_acl_check}
use mqtt_protocol_v.Server.State.{World, Env}
use mqtt_protocol_v.Server.Writing.{write_packet}
use mqtt_protocol_v.Server.Writing.Effects.{
  Silent, Silent-refl, write_packet-Silent, disconnect_client-Silent,
}
use mqtt_protocol_v.Server.Delivery.Keeping.{Stable}
use mqtt_protocol_v.Common.Int.{ℤ}
use mqtt_protocol_v.Session.Inflight.{decrease_receive_quota}
use mqtt_protocol_v.Server.Acks.{build_ack, under_way}
use mqtt_protocol_v.Server.Delivery.{retain}
use mqtt_protocol_v.Server.State.{with_inflight}
use mqtt_protocol_v.Server.Failures.{Failure}
use mqtt_protocol_v.Server.State.{◌>>◌}
use mqtt_protocol_v.Server.Writing.Effects.{write_packet-Leaves}
use mqtt_protocol_v.Server.Delivery.Spreading.{publish_to_subscribers-Holds}
use mqtt_protocol_v.Server.Publishing.{
  store_ack, publish_out, end_qos1, pass_on, acknowledge, first_ack, refuse, by_inflight, stamped,
  process_publish,
}

-- A PUBREC is under way with an id: a message of QoS 2 has come in, and its flow has not ended.
abbrev pub IsPending : ℕ → Inflight → Type 0
IsPending id i =
    (pki : Packet) × (get i id ≡ some pki) × (pki.fixed_header.packet_type ≡ Types.pubrec)

IsPending-Stable : (id : ℕ) → Stable (IsPending id) (λ n. n ≢ id)
unfolding get set delete decrease_send_quota increase_send_quota
IsPending-Stable id = record {
  fresh = λ i n (pki, there, kind) free same. ground (arith, there, free, same);
  setting = λ i m free (pki, there, kind).
      (pki, lookup-insert m.packet_id id m i.internal ∙ ground (arith, free, there), kind);
  deleting = λ i n free (pki, there, kind).
      (pki, lookup-delete n id i.internal ∙ ground (arith, free, there), kind);
  taking = λ i q. if_both (IsPending id) (ltb 0 i.send_quota) q q;
  giving = λ i q. if_both (IsPending id) (ltb i.send_quota i.maximum_send_quota) q q;
}

refuse-Silent : (env : Env) (cl : ℕ) (pk : Packet) (w : World) → Silent w (refuse env cl pk w).1
unfolding refuse
refuse-Silent env cl pk w = elim (Bool-cases (pk.fixed_header.qos == 0)) [
  | inl at_most_once ↦ rw at_most_once (Silent-refl w)
  | inr more ↦ elim (Bool-cases (not ((w.heap cl).protocol_version == 5))) [
    | inl old ↦ rw (more, old) (disconnect_client-Silent env cl err_not_authorized w)
    | inr new ↦ rw (more, new) (write_packet-Silent env cl _ w)
  ]
]

again-Silent :
    (env : Env) (cl : ℕ) (pk : Packet) (o : Option Packet) (w : World)
    → (pki : Packet) × (o ≡ some pki) × (pki.fixed_header.packet_type ≡ Types.pubrec)
    → Silent w (by_inflight env cl pk o w).1
unfolding by_inflight
again-Silent env cl pk none w (pki, there, kind) = absurd (cc there)
again-Silent env cl pk (some found) w (pki, there, kind) =
    elim (Bool-cases (found.fixed_header.packet_type == Types.pubrec)) [
      | inl same ↦ rw same (write_packet-Silent env cl _ w)
      | inr apart ↦ absurd (ground (arith, there, kind, apart))
    ]

-- While a PUBREC is under way with an id, a PUBLISH with that id from the same client is not
-- published, whatever else is wrong with it: no queue and no in-flight store changes, and no
-- retained message.
pub process_publish-Silent :
    (env : Env) (cl : ℕ) (pk : Packet) (w : World)
    → (w.heap cl).inline ≡ false
    → IsPending pk.packet_id (w.heap cl).inflight
    → Silent w (process_publish env cl pk w).1
unfolding process_publish stamped
process_publish-Silent env cl pk w remote pending =
    elim (Bool-cases (is_valid_filter pk.topic_name true)) [
      | inl valid ↦ elim (Bool-cases ((w.heap cl).inflight.receive_quota == 0)) [
        | inl used_up ↦
            rw (remote, valid, used_up) (disconnect_client-Silent env cl err_receive_maximum w)
        | inr left ↦ elim (Bool-cases (on_acl_check env.hooks (w, cl) pk.topic_name true)) [
          | inl allowed ↦
              rw (remote, valid, left, allowed)
                (again-Silent env cl (stamped env w cl pk) (get (w.heap cl).inflight pk.packet_id) w
                  pending)
          | inr refused ↦ rw (remote, valid, left, refused) (refuse-Silent env cl pk w)
        ]
      ]
      | inr invalid ↦ rw (remote, invalid) (Silent-refl w)
    ]

module _ (env : Env) (cl : ℕ) (pk : Packet) where
  abbrev Pending : World → Type 0
  Pending w = ((w.heap cl).inline ≡ false) × IsPending pk.packet_id (w.heap cl).inflight

  store_ack-Pending :
      (ack : Packet) (w : World)
      → (w.heap cl).inline ≡ false
      → ack.packet_id ≡ pk.packet_id
      → ack.fixed_header.packet_type ≡ Types.pubrec
      → Pending (store_ack cl ack w)
  unfolding store_ack set get
  store_ack-Pending ack w remote id kind =
      let stored : Pending (with_inflight cl (λ i. (set i ack).0) w) = rw ((==_iff cl cl).1 refl) (
        remote,
        (
          ack,
          lookup-insert ack.packet_id pk.packet_id ack (w.heap cl).inflight.internal
              ∙ rw ((==_iff ack.packet_id pk.packet_id).1 id) refl,
          kind,
        ),
      ) in
      if_both Pending (under_way w cl ack.packet_id) stored stored

  write_packet-Pending :
      (out : Packet) (w : World) → Pending w → Pending (write_packet env cl out w).1
  write_packet-Pending out w pending = rw (write_packet-Leaves env cl out w).0 pending

  publish_out-Pending : (w : World) → Pending w → Pending (publish_out env cl pk w).1
  unfolding publish_out
  publish_out-Pending w pending =
      publish_to_subscribers-Holds (IsPending-Stable pk.packet_id) cl false env pk w pending

  rest-Pending :
      (ack : Packet) (answer : Option Failure × World)
      → pk.fixed_header.qos ≡ 2
      → Pending answer.1
      → Pending (answer >> (λ w. publish_out env cl pk (end_qos1 cl pk ack w))).1
  unfolding end_qos1
  rest-Pending ack (none, w) exactly pending =
      let other : (pk.fixed_header.qos == 1) ≡ false = ground (arith, exactly) in
      rw other (publish_out-Pending w pending)
  rest-Pending ack (some e, w) exactly pending = pending

  first_ack-kind :
      (now : ℤ)
      → pk.fixed_header.qos ≡ 2
      → ((first_ack env now pk).packet_id ≡ pk.packet_id)
        × ((first_ack env now pk).fixed_header.packet_type ≡ Types.pubrec)
  unfolding first_ack build_ack
  first_ack-kind now exactly =
      let two : (pk.fixed_header.qos == 2) ≡ true = ground (arith, exactly) in rw two (refl, refl)

  acknowledge-Pending :
      (w : World)
      → (w.heap cl).inline ≡ false
      → pk.fixed_header.qos ≡ 2
      → Pending (acknowledge env cl pk w).1
  unfolding acknowledge
  acknowledge-Pending w remote exactly =
      let ack = first_ack env w.now pk in
      let (id, kind) = first_ack-kind w.now exactly in
      let taken = with_inflight cl decrease_receive_quota w in
      let taken_remote : (taken.heap cl).inline ≡ false = rw ((==_iff cl cl).1 refl) remote in
      rest-Pending ack (write_packet env cl ack (store_ack cl ack taken)) exactly (
        write_packet-Pending ack (store_ack cl ack taken)
          (store_ack-Pending ack taken taken_remote id kind))

  retain-inline :
      (w : World) → (w.heap cl).inline ≡ false → ((retain env cl pk w).heap cl).inline ≡ false
  unfolding retain
  retain-inline w remote =
      if_both (λ (v : World). (v.heap cl).inline ≡ false)
        (env.capabilities.retain_available == 0 || pk.ignore) remote remote

  pass_on-Pending :
      (w : World)
      → (w.heap cl).inline ≡ false
      → pk.fixed_header.qos ≡ 2
      → Pending (pass_on env cl pk w).1
  unfolding pass_on
  pass_on-Pending w remote exactly =
      let zero : (pk.fixed_header.qos == 0) ≡ false = ground (arith, exactly) in
      let stays : (pk.fixed_header.qos == 0 || (w.heap cl).inline) ≡ false =
        rw (zero, remote) refl in
      let w' = if pk.fixed_header.retain then retain env cl pk w else w in
      let remote' : (w'.heap cl).inline ≡ false =
        if_both (λ (v : World). (v.heap cl).inline ≡ false) pk.fixed_header.retain
          (retain-inline w remote) remote in
      rw stays (acknowledge-Pending w' remote' exactly)

  -- Once the hooks have let a message of QoS 2 of a remote client through, it is published at most
  -- this once: whatever became of the PUBREC, and whoever the message went to, a PUBLISH with its id
  -- that follows changes no queue, no in-flight store and no retained message.
  pub pass_on-once :
      (again : Packet) (w : World)
      → (w.heap cl).inline ≡ false
      → pk.fixed_header.qos ≡ 2
      → again.packet_id ≡ pk.packet_id
      → let w' = (pass_on env cl pk w).1 in Silent w' (process_publish env cl again w').1
  pass_on-once again w remote exactly same =
      let w' = (pass_on env cl pk w).1 in
      let (remote', pending) = pass_on-Pending w remote exactly in
      process_publish-Silent env cl again w' remote' (rw same pending)
