-- ===== src/Server/Handling.antt =====
-- `processPacket` of broker/server.go, and the handlers that do little else.
use mqtt_protocol_v.Common.{
  ℕ, ◌+◌, Bool, true, ◌&&◌, ◌||◌, Option, none, some, ◌==◌, ltb, length, if◌then◌else◌,
}
use mqtt_protocol_v.Common.Equality.{nat_eq, bytes_instance}
use mqtt_protocol_v.Common.Map
use mqtt_protocol_v.Packets.Types
use mqtt_protocol_v.Packets.FixedHeader.{blank}
use mqtt_protocol_v.Packets.Codes.{
  Code, code_byte, code_success, code_disconnect, code_disconnect_will_message,
  err_protocol_violation_second_connect, err_protocol_violation_zero_non_zero_expiry,
}
use mqtt_protocol_v.Packets.Errors.{coded}
use mqtt_protocol_v.Packets.Packet.{Packet, no_packet}
use mqtt_protocol_v.Packets.Packet.Publish.{publish_validate}
use mqtt_protocol_v.Packets.Packet.Subscribe.{subscribe_validate}
use mqtt_protocol_v.Packets.Packet.Unsubscribe.{unsubscribe_validate}
use mqtt_protocol_v.Packets.Packet.Session.{auth_validate}
use mqtt_protocol_v.Session.Inflight.{decrease_send_quota}
use mqtt_protocol_v.Session.Inflight.Listing.{next_immediate}
use mqtt_protocol_v.Server.Failures.{
  Failure, codec, no_packet_type, code_error, is_failure, is_success,
}
use mqtt_protocol_v.Server.Hooks.{on_auth_packet}
use mqtt_protocol_v.Server.State.{
  Client, World, Env, Action, packet_processed, update_client, with_inflight, count, notify, ◌>>◌,
}
use mqtt_protocol_v.Server.Writing.{write_packet, stop, disconnect_client}
use mqtt_protocol_v.Server.Acks.{
  drop_inflight, process_puback, process_pubrec, process_pubrel, process_pubcomp,
}
use mqtt_protocol_v.Server.Wills.{send_lwt}
use mqtt_protocol_v.Server.Publishing.{process_publish}
use mqtt_protocol_v.Server.Subscribing.{process_subscribe, process_unsubscribe}

-- `processConnect`
unfoldable pub process_connect : Env → ℕ → Action
process_connect env cl w = (code_error err_protocol_violation_second_connect, send_lwt env cl w)

-- `processPingreq`
unfoldable pub process_pingreq : Env → ℕ → Action
process_pingreq env cl w =
    write_packet env cl
      (record no_packet { fixed_header = record blank { packet_type = Types.pingresp } }) w

-- `processAuth`
unfoldable pub process_auth : Env → ℕ → Packet → Action
process_auth env cl pk w = ((on_auth_packet env.hooks (w, cl) pk).1, w)

-- the session expiry interval that a DISCONNECT sets
unfoldable pub with_expiry : Packet → Client → Client
with_expiry pk c =
    if pk.properties.session_expiry_interval_flag
    then record c {
      props = record c.props {
        session_expiry_interval = pk.properties.session_expiry_interval;
        session_expiry_interval_flag = true;
      };
    }
    else c

-- `processDisconnect`
unfoldable pub process_disconnect : Env → ℕ → Packet → Action
process_disconnect env cl pk w =
    let w' = update_client cl (with_expiry pk) w in
    if pk.properties.session_expiry_interval_flag
      && (ltb 0 pk.properties.session_expiry_interval
          && (w.heap cl).props.session_expiry_interval == 0)
    then (code_error err_protocol_violation_zero_non_zero_expiry, w)
    else if pk.reason_code == code_byte code_disconnect_will_message
    then (code_error code_disconnect_will_message, w')
    else (
      none,
      update_client cl (stop (code_error code_disconnect) w.now)
          (record w' { will_delayed = Map.delete (w.heap cl).id w.will_delayed }),
    )

-- a handler behind a validation
unfoldable pub validated : Code → Action → Action
validated code handler w = if is_success code then handler w else (code_error code, w)

-- the switch over the type of the packet, with whether the handler got the packet
unfoldable pub dispatch : Env → ℕ → Packet → Action
dispatch env cl pk w =
    let t = pk.fixed_header.packet_type in
    if t == Types.connect
    then process_connect env cl w
    else if t == Types.disconnect
    then process_disconnect env cl pk w
    else if t == Types.pingreq
    then process_pingreq env cl w
    else if t == Types.publish
    then process_publish env cl pk w
    else if t == Types.puback
    then process_puback cl pk w
    else if t == Types.pubrec
    then process_pubrec env cl pk w
    else if t == Types.pubrel
    then process_pubrel env cl pk w
    else if t == Types.pubcomp
    then process_pubcomp cl pk w
    else if t == Types.subscribe
    then process_subscribe env cl pk w
    else if t == Types.unsubscribe
    then process_unsubscribe env cl pk w
    else if t == Types.auth
    then process_auth env cl pk w
    else (some (no_packet_type t), w)

-- the code of the validation that precedes a handler
pub validation : Env → Packet → Code
validation env pk =
    let t = pk.fixed_header.packet_type in
    if t == Types.publish
    then publish_validate pk env.capabilities.topic_alias_maximum
    else if t == Types.subscribe
    then subscribe_validate pk
    else if t == Types.unsubscribe
    then unsubscribe_validate pk
    else if t == Types.auth
    then auth_validate pk
    else code_success

-- whether there is a handler for a type
pub is_handled : ℕ → Bool
is_handled t =
    t == Types.connect
    || t == Types.disconnect
    || t == Types.pingreq
    || t == Types.publish
    || t == Types.puback
    || t == Types.pubrec
    || t == Types.pubrel
    || t == Types.pubcomp
    || t == Types.subscribe
    || t == Types.unsubscribe
    || t == Types.auth

-- the message that waits for quota, if any: it is sent, and leaves the store
unfoldable pub send_waiting : Env → ℕ → Option Packet → World → World
send_waiting env cl none w = w
send_waiting env cl (some next) w =
    with_inflight cl decrease_send_quota
      (drop_inflight cl next.packet_id (write_packet env cl next w).1)

-- the end of `processPacket`, after the switch
unfoldable pub finish : Env → ℕ → Packet → Option Failure × World → Option Failure × World
finish env cl pk (some e, w) = (some e, notify (packet_processed cl pk (some e)) w)
finish env cl pk (none, w) =
    let w' = notify (packet_processed cl pk none) w in
    let i = (w.heap cl).inflight in
    (
      none,
      if ltb 0 (length i.internal) && ltb 0 i.send_quota
          then send_waiting env cl (next_immediate i) w'
          else w',
    )

-- `processPacket`
unfoldable pub process_packet : Env → ℕ → Packet → Action
process_packet env cl pk w =
    if is_handled pk.fixed_header.packet_type
    then validated (validation env pk) (λ w'. finish env cl pk (dispatch env cl pk w')) w
    else dispatch env cl pk w

-- `InjectPacket`
pub inject_packet : Env → ℕ → Packet → Action
inject_packet env cl pk w =
    process_packet env cl (record pk { protocol_version = (w.heap cl).protocol_version }) w >> λ w'.
    (
      none,
      count
          (λ i. record i {
            packets_received = i.packets_received + 1;
            messages_received =
                if pk.fixed_header.packet_type == Types.publish
                then i.messages_received + 1
                else i.messages_received;
          })
          w',
    )

-- the code of an error that is one
pub disconnect_code : Env → ℕ → Failure → World → World
disconnect_code env cl (codec (coded code)) w =
    if (w.heap cl).protocol_version == 5 && is_failure (code_byte code)
    then (disconnect_client env cl code w).1
    else w
disconnect_code env cl failure w = w

-- what follows on an error in `receivePacket`
unfoldable pub received : Env → ℕ → Option Failure × World → Option Failure × World
received env cl (none, w) = (none, w)
received env cl (some e, w) = (some e, disconnect_code env cl e w)

-- `receivePacket`
pub receive_packet : Env → ℕ → Packet → Action
receive_packet env cl pk w = received env cl (process_packet env cl pk w)
