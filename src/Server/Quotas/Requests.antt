-- ===== src/Server/Quotas/Requests.antt =====
-- `processPacket` keeps the quotas within their bounds.
use mqtt_protocol_v.Common.{
  ℕ, ◌≡◌, refl, Bool, true, false, not, ◌&&◌, Option, none, some, List, [], ◌∷◌, ◌==◌, ltb, if_both,
  if◌then◌else◌,
}
use mqtt_protocol_v.Common.Equality.{Bytes, bytes_instance}
use mqtt_protocol_v.Common.Map
use mqtt_protocol_v.Packets.Types
use mqtt_protocol_v.Packets.Codes.{
  code_byte, code_disconnect, code_disconnect_will_message,
  err_protocol_violation_zero_non_zero_expiry,
}
use mqtt_protocol_v.Packets.Packet.{Packet, Subscription}
use mqtt_protocol_v.Session.Inflight.{step, step-IsWithin, take_send, decrease_send_quota}
use mqtt_protocol_v.Topics.Filters.{is_valid_filter, is_shared_filter}
use mqtt_protocol_v.Topics.Index
use mqtt_protocol_v.Server.Failures.{Failure, no_packet_type, code_error, is_failure, is_success}
use mqtt_protocol_v.Server.Hooks.{on_acl_check, on_subscribe, on_unsubscribe, on_will}
use mqtt_protocol_v.Server.State.{World, Client, Env, update_client, notify, packet_processed}
use mqtt_protocol_v.Server.Writing.{stop}
use mqtt_protocol_v.Server.Writing.Effects.{stop-keeps}
use mqtt_protocol_v.Server.Acks.{under_way}
use mqtt_protocol_v.Server.Delivery.{publish_to_subscribers, retain}
use mqtt_protocol_v.Server.Wills.{send_lwt, will_message}
use mqtt_protocol_v.Server.Subscribing.{
  grant, ask, ask_all, send_retained, subscribe_filters, process_subscribe, leave, leave_all,
  forget, process_unsubscribe,
}
use mqtt_protocol_v.Server.Handling.{
  process_connect, process_pingreq, process_auth, with_expiry, process_disconnect, validated,
  dispatch, send_waiting, finish, process_packet, validation, is_handled,
}
use mqtt_protocol_v.Server.Quotas.{
  AreWithin, Answers, answered, left, same_heap-AreWithin, with_inflight-AreWithin,
  update_client-AreWithin, write_packet-AreWithin, then-AreWithin, publish_to_subscribers-AreWithin,
  retain-AreWithin, publish_retained_to_client-AreWithin, drop_inflight-AreWithin,
}
use mqtt_protocol_v.Server.Quotas.Packets.{
  process_publish-AreWithin, process_puback-AreWithin, process_pubrec-AreWithin,
  process_pubrel-AreWithin, process_pubcomp-AreWithin,
}

-- the answer for a filter
Asked : ℕ × Bool × World → Type 0
Asked answer = AreWithin answer.2

Asked-intro : (answer : ℕ × Bool × World) → AreWithin answer.2 → Asked answer
unfolding Asked
Asked-intro answer h = h

module _ (env : Env) (cl : ℕ) where
  grant-AreWithin :
      (sub : Subscription) (w : World) → AreWithin w → AreWithin (grant env cl sub w).2
  unfolding grant
  grant-AreWithin sub w h =
      let topics = (Index.subscribe w.topics (w.heap cl).id sub).0 in
      let indexed : AreWithin (record w { topics = topics }) = same_heap-AreWithin w _ refl h in
      update_client-AreWithin cl
        (λ c. record c { subscriptions = Map.insert sub.filter sub c.subscriptions }) _ (λ c. refl)
        (if_both AreWithin _ (same_heap-AreWithin w _ refl h) indexed)

  ask-Asked : (sub : Subscription) (w : World) → AreWithin w → Asked (ask env cl sub w)
  unfolding ask
  ask-Asked sub w h =
      let shared = sub.no_local && is_shared_filter sub.filter in
      let denied = not (on_acl_check env.hooks (w, cl) sub.filter false) in
      if_both Asked (not (is_valid_filter sub.filter false)) (Asked-intro (_, false, w) h) (
        if_both Asked shared (Asked-intro (_, false, w) h) (
          if_both Asked denied (Asked-intro (_, false, w) h)
            (Asked-intro (grant env cl sub w) (grant-AreWithin sub w h))))

  ask-AreWithin : (sub : Subscription) (w : World) → AreWithin w → AreWithin (ask env cl sub w).2
  unfolding Asked
  ask-AreWithin sub w h = ask-Asked sub w h

  ask_all-AreWithin :
      (in_use : Bool) (subs : List Subscription) (w : World)
      → AreWithin w
      → AreWithin (ask_all env cl in_use subs w).1
  unfolding ask_all
  ask_all-AreWithin in_use [] w h = h
  ask_all-AreWithin true (sub ∷ subs) w h = ask_all-AreWithin true subs w h
  ask_all-AreWithin false (sub ∷ subs) w h =
      ask_all-AreWithin false subs (ask env cl sub w).2 (ask-AreWithin sub w h)

  send_retained-AreWithin :
      (subs : List Subscription) (answers : List (ℕ × Bool)) (w : World)
      → AreWithin w
      → AreWithin (send_retained env cl subs answers w)
  unfolding send_retained
  send_retained-AreWithin [] answers w h = h
  send_retained-AreWithin (sub ∷ subs) [] w h = h
  send_retained-AreWithin (sub ∷ subs) ((byte, existed) ∷ answers) w h =
      send_retained-AreWithin subs answers _ (
        if_both AreWithin (is_failure byte) h
          (publish_retained_to_client-AreWithin env cl sub existed w h))

  process_subscribe-AreWithin :
      (pk : Packet) (w : World) → AreWithin w → Answers (process_subscribe env cl pk w)
  unfolding process_subscribe subscribe_filters
  process_subscribe-AreWithin pk w h =
      let asked = on_subscribe env.hooks (w, cl) pk in
      let in_use = under_way w cl asked.packet_id in
      let (answers, w') = ask_all env cl in_use asked.filters w in
      then-AreWithin _ (λ after. (none, send_retained env cl asked.filters answers after))
        (write_packet-AreWithin env cl _ _
          (same_heap-AreWithin w' _ refl (ask_all-AreWithin in_use asked.filters w h)))
        (λ after h'. answered none _ (send_retained-AreWithin asked.filters answers after h'))

  leave-AreWithin : (filter id : Bytes) (w : World) → AreWithin w → AreWithin (leave filter id w).1
  unfolding leave
  leave-AreWithin filter id w h =
      if_both AreWithin _ (same_heap-AreWithin w _ refl h) (same_heap-AreWithin w _ refl h)

  leave_all-AreWithin :
      (in_use : Bool) (subs : List Subscription) (w : World)
      → AreWithin w
      → AreWithin (leave_all cl in_use subs w).1
  unfolding leave_all
  leave_all-AreWithin in_use [] w h = h
  leave_all-AreWithin true (sub ∷ subs) w h = leave_all-AreWithin true subs w h
  leave_all-AreWithin false (sub ∷ subs) w h =
      leave_all-AreWithin false subs (forget cl sub.filter (leave sub.filter (w.heap cl).id w).1) (
        update_client-AreWithin cl
          (λ c. record c { subscriptions = Map.delete sub.filter c.subscriptions }) _ (λ c. refl)
          (leave-AreWithin sub.filter (w.heap cl).id w h))

  process_unsubscribe-AreWithin :
      (pk : Packet) (w : World) → AreWithin w → Answers (process_unsubscribe env cl pk w)
  unfolding process_unsubscribe
  process_unsubscribe-AreWithin pk w h =
      let in_use = under_way w cl pk.packet_id in
      let asked = on_unsubscribe env.hooks (w, cl) pk in
      write_packet-AreWithin env cl _ _ (
        same_heap-AreWithin (leave_all cl in_use asked.filters w).1 _ refl
          (leave_all-AreWithin in_use asked.filters w h))

  send_lwt-AreWithin : (w : World) → AreWithin w → AreWithin (send_lwt env cl w)
  unfolding send_lwt
  send_lwt-AreWithin w h =
      let c = w.heap cl in
      let pk = will_message (on_will env.hooks (w, cl) c.will) c.id w.now in
      let kept = if pk.fixed_header.retain then retain env cl pk w else w in
      let kept_within =
        if_both AreWithin pk.fixed_header.retain (retain-AreWithin env cl pk w h) h in
      let unset =
        update_client cl (λ d. record d { will = record d.will { flag = false } })
          (publish_to_subscribers env pk kept) in
      if_both AreWithin (not c.will.flag) h (
        if_both AreWithin (ltb 0 c.will.will_delay_interval) (same_heap-AreWithin w _ refl h) (
          same_heap-AreWithin unset _ refl (
            update_client-AreWithin cl (λ d. record d { will = record d.will { flag = false } })
              (publish_to_subscribers env pk kept) (λ c. refl)
              (publish_to_subscribers-AreWithin env pk kept kept_within))))

  with_expiry-keeps : (pk : Packet) → (c : _) → (with_expiry pk c).inflight ≡ c.inflight
  unfolding with_expiry
  with_expiry-keeps pk c =
      if_both (λ (d : Client). d.inflight ≡ c.inflight) pk.properties.session_expiry_interval_flag
        refl refl

  process_disconnect-AreWithin :
      (pk : Packet) (w : World) → AreWithin w → Answers (process_disconnect env cl pk w)
  unfolding process_disconnect
  process_disconnect-AreWithin pk w h =
      let w' = update_client cl (with_expiry pk) w in
      let set : AreWithin w' =
        update_client-AreWithin cl (with_expiry pk) w (with_expiry-keeps pk) h in
      let undelayed = record w' { will_delayed = Map.delete (w.heap cl).id w.will_delayed } in
      let restarts =
        pk.properties.session_expiry_interval_flag
        && (ltb 0 pk.properties.session_expiry_interval
            && (w.heap cl).props.session_expiry_interval == 0) in
      let wills = pk.reason_code == code_byte code_disconnect_will_message in
      if_both Answers restarts
        (answered (code_error err_protocol_violation_zero_non_zero_expiry) w h)
        (if_both Answers wills (answered (code_error code_disconnect_will_message) w' set) (
          answered none (update_client cl (stop (code_error code_disconnect) w.now) undelayed) (
            update_client-AreWithin cl (stop (code_error code_disconnect) w.now) undelayed
              (λ c. (stop-keeps (code_error code_disconnect) w.now c).1)
              (same_heap-AreWithin w' undelayed refl set))))

  process_connect-AreWithin : (w : World) → AreWithin w → Answers (process_connect env cl w)
  unfolding process_connect
  process_connect-AreWithin w h = answered _ (send_lwt env cl w) (send_lwt-AreWithin w h)

  process_pingreq-AreWithin : (w : World) → AreWithin w → Answers (process_pingreq env cl w)
  unfolding process_pingreq
  process_pingreq-AreWithin w h = write_packet-AreWithin env cl _ w h

  process_auth-AreWithin :
      (pk : Packet) (w : World) → AreWithin w → Answers (process_auth env cl pk w)
  unfolding process_auth
  process_auth-AreWithin pk w h = answered _ w h

  dispatch-AreWithin : (pk : Packet) (w : World) → AreWithin w → Answers (dispatch env cl pk w)
  unfolding dispatch
  dispatch-AreWithin pk w h = if_both Answers _ (process_connect-AreWithin w h) (
      if_both Answers _ (process_disconnect-AreWithin pk w h) (
        if_both Answers _ (process_pingreq-AreWithin w h) (
          if_both Answers _ (process_publish-AreWithin env cl pk w h) (
            if_both Answers _ (process_puback-AreWithin env cl pk w h) (
              if_both Answers _ (process_pubrec-AreWithin env cl pk w h) (
                if_both Answers _ (process_pubrel-AreWithin env cl pk w h) (
                  if_both Answers _ (process_pubcomp-AreWithin env cl pk w h) (
                    if_both Answers _ (process_subscribe-AreWithin pk w h) (
                      if_both Answers _ (process_unsubscribe-AreWithin pk w h) (
                        if_both Answers (pk.fixed_header.packet_type == Types.auth)
                          (process_auth-AreWithin pk w h)
                          (answered (some (no_packet_type pk.fixed_header.packet_type)) w
                            h)))))))))))

  send_waiting-AreWithin :
      (o : Option Packet) (w : World) → AreWithin w → AreWithin (send_waiting env cl o w)
  unfolding send_waiting step
  send_waiting-AreWithin none w h = h
  send_waiting-AreWithin (some next) w h =
      with_inflight-AreWithin cl decrease_send_quota _ (λ i. step-IsWithin i take_send)
        (drop_inflight-AreWithin cl next.packet_id _
          (left _ (write_packet-AreWithin env cl next w h)))

  finish-AreWithin :
      (pk : Packet) (answer : Option Failure × World)
      → Answers answer
      → Answers (finish env cl pk answer)
  unfolding finish
  finish-AreWithin pk (some e, w) h =
      answered _ _ (same_heap-AreWithin w _ refl (left (some e, w) h))
  finish-AreWithin pk (none, w) h =
      let told : AreWithin (notify (packet_processed cl pk none) w) =
        same_heap-AreWithin w _ refl (left (none, w) h) in
      answered none _ (if_both AreWithin _ (send_waiting-AreWithin _ _ told) told)

-- Whatever packet a client sends, no client's receive or send quota exceeds its maximum
-- afterwards, if none did before: whoever the packet is published to, whichever retained messages
-- and wills it sets off, and wherever the handling stops with an error.
pub process_packet-AreWithin :
    (env : Env) (cl : ℕ) (pk : Packet) (w : World)
    → AreWithin w
    → Answers (process_packet env cl pk w)
unfolding process_packet validated
process_packet-AreWithin env cl pk w h =
    let handled = dispatch-AreWithin env cl pk w h in
    if_both Answers (is_handled pk.fixed_header.packet_type)
      (if_both Answers (is_success (validation env pk)) (finish-AreWithin env cl pk _ handled)
        (answered (code_error (validation env pk)) w h))
      handled
