-- ===== src/Server/Quotas/Packets.antt =====
-- Every handler keeps the quotas within their bounds.
use mqtt_protocol_v.Common.{ℕ, refl, Option, none, some, if_both}
use mqtt_protocol_v.Packets.Packet.{Packet}
use mqtt_protocol_v.Session.Inflight.{
  step, step-IsWithin, set, take_receive, give_receive, give_send, decrease_receive_quota,
  increase_receive_quota, increase_send_quota,
}
use mqtt_protocol_v.Packets.Types
use mqtt_protocol_v.Packets.Codes.{code_success}
use mqtt_protocol_v.Session.Aliases.{set_inbound}
use mqtt_protocol_v.Server.Failures.{
  Failure, codec, connection_closed, inline_client_not_enabled, no_packet_type, other,
}
use mqtt_protocol_v.Packets.Errors.{coded, eof, invalid_property, index_panic}
use mqtt_protocol_v.Server.State.{World, Env, with_inflight, notify, qos_dropped}
use mqtt_protocol_v.Server.Delivery.{publish_to_subscribers}
use mqtt_protocol_v.Server.Acks.{
  drop_inflight, end_flow, process_puback, process_pubrec, process_pubrel, process_pubcomp,
  build_ack,
}
use mqtt_protocol_v.Server.Publishing.{
  refuse, publish_out, store_ack, end_qos1, first_ack, acknowledge, pass_on, refused_code, by_hooks,
  accept, by_inflight, process_publish, stamped,
}
use mqtt_protocol_v.Server.Quotas.{
  AreWithin, Answers, answered, same_heap-AreWithin, with_inflight-AreWithin,
  update_client-AreWithin, write_packet-AreWithin, disconnect_client-AreWithin, then-AreWithin,
  publish_to_subscribers-AreWithin, retain-AreWithin, drop_inflight-AreWithin, complete-AreWithin,
}
use mqtt_protocol_v.Server.Acks.{drop_inflight}

module _ (env : Env) (cl : ℕ) (pk : Packet) where
  pub process_puback-AreWithin : (w : World) → AreWithin w → Answers (process_puback cl pk w)
  unfolding process_puback step
  process_puback-AreWithin w h =
      if_both Answers _
        (answered none _ (
          complete-AreWithin cl pk (with_inflight cl increase_send_quota w)
            (with_inflight-AreWithin cl increase_send_quota w (λ i. step-IsWithin i give_send) h)))
        (answered none w h)

  -- the branch that `processPubrec` and `processPubrel` share
  dropped-AreWithin :
      (w : World)
      → AreWithin w
      → Answers (none, notify (qos_dropped cl pk) (drop_inflight cl pk.packet_id w))
  dropped-AreWithin w h = answered none _ (
      same_heap-AreWithin (drop_inflight cl pk.packet_id w) _ refl
        (drop_inflight-AreWithin cl pk.packet_id w h))

  pub process_pubrec-AreWithin : (w : World) → AreWithin w → Answers (process_pubrec env cl pk w)
  unfolding process_pubrec step set
  process_pubrec-AreWithin w h =
      let ack = build_ack env w.now pk.packet_id Types.pubrel 1 pk.properties code_success in
      if_both Answers _ (write_packet-AreWithin env cl _ w h) (
        if_both Answers _ (dropped-AreWithin w h) (
          write_packet-AreWithin env cl _ _ (
            with_inflight-AreWithin cl (λ i. (set (decrease_receive_quota i) ack).0) w
              (λ i. step-IsWithin i take_receive) h)))

  end_flow-AreWithin : (w : World) → AreWithin w → Answers (end_flow cl pk w)
  unfolding end_flow step
  end_flow-AreWithin w h = answered none _ (
      complete-AreWithin cl pk _ (
        with_inflight-AreWithin cl (λ i. increase_send_quota (increase_receive_quota i)) w
          (λ i q.
            step-IsWithin (increase_receive_quota i) give_send (step-IsWithin i give_receive q))
          h))

  pub process_pubrel-AreWithin : (w : World) → AreWithin w → Answers (process_pubrel env cl pk w)
  unfolding process_pubrel set
  process_pubrel-AreWithin w h =
      let ack = build_ack env w.now pk.packet_id Types.pubcomp 0 pk.properties code_success in
      if_both Answers _ (write_packet-AreWithin env cl _ w h) (
        if_both Answers _ (dropped-AreWithin w h) (
          then-AreWithin _ (end_flow cl pk)
            (write_packet-AreWithin env cl _ _
              (with_inflight-AreWithin cl (λ i. (set i ack).0) w (λ i q. q) h))
            end_flow-AreWithin))

  pub process_pubcomp-AreWithin : (w : World) → AreWithin w → Answers (process_pubcomp cl pk w)
  unfolding process_pubcomp
  process_pubcomp-AreWithin w h = end_flow-AreWithin w h

module _ (env : Env) (cl : ℕ) where
  refuse-AreWithin : (pk : Packet) (w : World) → AreWithin w → Answers (refuse env cl pk w)
  unfolding refuse
  refuse-AreWithin pk w h = if_both Answers _ (answered none w h) (
      if_both Answers _ (disconnect_client-AreWithin env cl _ w h)
        (write_packet-AreWithin env cl _ w h))

  publish_out-AreWithin :
      (pk : Packet) (w : World) → AreWithin w → Answers (publish_out env cl pk w)
  unfolding publish_out
  publish_out-AreWithin pk w h = answered none _ (
      same_heap-AreWithin (publish_to_subscribers env pk w) _ refl
        (publish_to_subscribers-AreWithin env pk w h))

  store_ack-AreWithin : (ack : Packet) (w : World) → AreWithin w → AreWithin (store_ack cl ack w)
  unfolding store_ack set
  store_ack-AreWithin ack w h =
      let stored : AreWithin (with_inflight cl (λ i. (set i ack).0) w) =
        with_inflight-AreWithin cl (λ i. (set i ack).0) w (λ i q. q) h in
      if_both AreWithin _ stored
        (same_heap-AreWithin (with_inflight cl (λ i. (set i ack).0) w) _ refl stored)

  end_qos1-AreWithin :
      (pk ack : Packet) (w : World) → AreWithin w → AreWithin (end_qos1 cl pk ack w)
  unfolding end_qos1 step
  end_qos1-AreWithin pk ack w h =
      let dropped = drop_inflight cl ack.packet_id w in
      if_both AreWithin _
        (same_heap-AreWithin (with_inflight cl increase_receive_quota dropped) _ refl (
          with_inflight-AreWithin cl increase_receive_quota dropped
            (λ i. step-IsWithin i give_receive) (drop_inflight-AreWithin cl ack.packet_id w h)))
        h

  acknowledge-AreWithin :
      (pk : Packet) (w : World) → AreWithin w → Answers (acknowledge env cl pk w)
  unfolding acknowledge step
  acknowledge-AreWithin pk w h =
      let ack = first_ack env w.now pk in
      then-AreWithin _ (λ w'. publish_out env cl pk (end_qos1 cl pk ack w'))
        (write_packet-AreWithin env cl ack _ (
          store_ack-AreWithin ack _ (
            with_inflight-AreWithin cl decrease_receive_quota w (λ i. step-IsWithin i take_receive)
              h)))
        (λ w' h'. publish_out-AreWithin pk _ (end_qos1-AreWithin pk ack w' h'))

  pass_on-AreWithin : (pk : Packet) (w : World) → AreWithin w → Answers (pass_on env cl pk w)
  unfolding pass_on
  pass_on-AreWithin pk w h =
      let kept = if_both AreWithin pk.fixed_header.retain (retain-AreWithin env cl pk w h) h in
      if_both Answers _ (publish_out-AreWithin pk _ kept) (acknowledge-AreWithin pk _ kept)

  refused_code-AreWithin :
      (pk : Packet) (e : Failure) (w : World) → AreWithin w → Answers (refused_code env cl pk e w)
  unfolding refused_code
  refused_code-AreWithin pk (codec (coded code)) w h =
      if_both Answers _ (write_packet-AreWithin env cl _ w h) (pass_on-AreWithin pk w h)
  refused_code-AreWithin pk (codec eof) w h = pass_on-AreWithin pk w h
  refused_code-AreWithin pk (codec (invalid_property k t)) w h = pass_on-AreWithin pk w h
  refused_code-AreWithin pk (codec index_panic) w h = pass_on-AreWithin pk w h
  refused_code-AreWithin pk connection_closed w h = pass_on-AreWithin pk w h
  refused_code-AreWithin pk inline_client_not_enabled w h = pass_on-AreWithin pk w h
  refused_code-AreWithin pk (no_packet_type t) w h = pass_on-AreWithin pk w h
  refused_code-AreWithin pk (other n) w h = pass_on-AreWithin pk w h

  by_hooks-AreWithin :
      (pk : Packet) (answer : Packet × Option Failure) (w : World)
      → AreWithin w
      → Answers (by_hooks env cl pk answer w)
  unfolding by_hooks
  by_hooks-AreWithin pk (pkx, none) w h = pass_on-AreWithin pkx w h
  by_hooks-AreWithin pk (pkx, some e) w h =
      if_both Answers _ (answered none w h)
        (if_both Answers _ (pass_on-AreWithin _ w h) (refused_code-AreWithin pk e w h))

  accept-AreWithin : (pk : Packet) (w : World) → AreWithin w → Answers (accept env cl pk w)
  unfolding accept
  accept-AreWithin pk w h =
      let aliases = (set_inbound (w.heap cl).inbound pk.properties.topic_alias pk.topic_name).0 in
      by_hooks-AreWithin _ _ _ (
        if_both AreWithin _
          (update_client-AreWithin cl (λ c. record c { inbound = aliases }) w (λ c. refl) h) h)

  by_inflight-AreWithin :
      (pk : Packet) (o : Option Packet) (w : World)
      → AreWithin w
      → Answers (by_inflight env cl pk o w)
  unfolding by_inflight
  by_inflight-AreWithin pk none w h = accept-AreWithin pk w h
  by_inflight-AreWithin pk (some pki) w h =
      if_both Answers _ (write_packet-AreWithin env cl _ w h)
        (accept-AreWithin pk _ (drop_inflight-AreWithin cl pk.packet_id w h))

  pub process_publish-AreWithin :
      (pk : Packet) (w : World) → AreWithin w → Answers (process_publish env cl pk w)
  unfolding process_publish
  process_publish-AreWithin pk w h = if_both Answers _ (answered none w h) (
      if_both Answers _ (disconnect_client-AreWithin env cl _ w h) (
        if_both Answers _ (refuse-AreWithin pk w h)
          (by_inflight-AreWithin (stamped env w cl pk) _ w h)))
