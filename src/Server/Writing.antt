-- ===== src/Server/Writing.antt =====
-- `WritePacket` and `Stop` of broker/clients.go, and `DisconnectClient` of broker/server.go.
pub mod Effects
use mqtt_protocol_v.Common.{
  ℕ, ◌+◌, ◌-◌, ◌%◌, ◌^◌, ◌≡◌, Bool, true, false, not, ◌&&◌, ◌||◌, Option, none, some, List, [], ◌∷◌,
  ◌==◌, ltb, leb, length, if◌then◌else◌,
}
use mqtt_protocol_v.Common.Equality.{Bytes, codes}
use mqtt_protocol_v.Common.Int.{ℤ, pos, negsuc, ltb_ℤ, sub_ℕ, pos_part, neg_part}
use mqtt_protocol_v.Packets.Types
use mqtt_protocol_v.Packets.FixedHeader.{FixedHeader, blank}
use mqtt_protocol_v.Packets.Codes.{Code, code_byte, reason, err_packet_too_large}
use mqtt_protocol_v.Packets.Errors.{Error, coded, Result, ok, err}
use mqtt_protocol_v.Packets.Packet.{Packet, no_packet}
use mqtt_protocol_v.Packets.Properties.{no_properties}
use mqtt_protocol_v.Packets.Packet.Connect.{connect_encode}
use mqtt_protocol_v.Packets.Packet.Session.{
  connack_encode, disconnect_encode, ping_encode, auth_encode,
}
use mqtt_protocol_v.Packets.Packet.Publish.{publish_encode}
use mqtt_protocol_v.Packets.Packet.Acks.{ack_encode}
use mqtt_protocol_v.Packets.Packet.Subscribe.{subscribe_encode, suback_encode}
use mqtt_protocol_v.Packets.Packet.Unsubscribe.{unsubscribe_encode, unsuback_encode}
use mqtt_protocol_v.Server.Failures.{
  Failure, codec, connection_closed, no_packet_type, code_error, is_failure,
}
use mqtt_protocol_v.Server.Hooks.{on_packet_encode}
use mqtt_protocol_v.Server.State.{
  Client, Event, World, Env, Action, update_client, count, notify, ◌>>◌,
}
use mqtt_protocol_v.Server.State.{packet_sent}

abbrev pub minus : ℤ → ℤ → ℤ
minus a b = sub_ℕ (pos_part a + neg_part b) (neg_part a + pos_part b)

-- The seconds that are left of a packet's life, at least 1, as a `uint32`.
abbrev remaining_life : ℤ → ℤ → ℕ
remaining_life expiry now =
    (if ltb_ℤ (minus expiry now) (pos 1) then 1 else pos_part (minus expiry now)) % 2 ^ 32

-- what `WritePacket` sets on a packet for the client, up to its hooks
pub outgoing : Env → World → ℕ → Packet → Packet
outgoing env w cl pk =
    let c = w.heap cl in
    record pk {
      properties =
          if ltb_ℤ (pos 0) pk.expiry
          then record pk.properties { message_expiry_interval = remaining_life pk.expiry w.now }
          else pk.properties;
      protocol_version = c.protocol_version;
      mods = record {
        max_size = if pk.mods.max_size == 0 then c.props.maximum_packet_size else pk.mods.max_size;
        disallow_problem_info =
            (c.props.request_problem_info_flag && c.props.request_problem_info == 0)
            || pk.mods.disallow_problem_info;
        allow_response_info =
            not (pk.fixed_header.packet_type == Types.connack)
            || c.props.request_response_info == 1
            || env.capabilities.always_return_response_info
            || pk.mods.allow_response_info;
      };
    }

-- an encoder's answer
pub encoded : Result Bytes → Option Failure × Bytes
encoded (ok bytes) = (none, bytes)
encoded (err e) = (some (codec e), [])

-- the switch over the type of the packet
pub encode_packet : Packet → Option Failure × Bytes
encode_packet pk =
    let t = pk.fixed_header.packet_type in
    if t == Types.connect
    then (none, connect_encode pk)
    else if t == Types.connack
    then (none, connack_encode pk)
    else if t == Types.publish
    then encoded (publish_encode pk)
    else if t == Types.puback || t == Types.pubrec || t == Types.pubrel || t == Types.pubcomp
    then (none, ack_encode pk)
    else if t == Types.subscribe
    then encoded (subscribe_encode pk)
    else if t == Types.suback
    then (none, suback_encode pk)
    else if t == Types.unsubscribe
    then encoded (unsubscribe_encode pk)
    else if t == Types.unsuback
    then (none, unsuback_encode pk)
    else if t == Types.pingreq || t == Types.pingresp
    then (none, ping_encode pk)
    else if t == Types.disconnect
    then (none, disconnect_encode pk)
    else if t == Types.auth
    then (none, auth_encode pk)
    else (some (no_packet_type t), [])

-- the counters and the hooks, after the bytes are out
pub sent : Env → ℕ → Packet → Bytes → World → World
sent env cl pk bytes w = notify (packet_sent cl pk bytes) (
    count
      (λ i. record i {
        bytes_sent = i.bytes_sent + length bytes;
        packets_sent = i.packets_sent + 1;
        messages_sent =
            if pk.fixed_header.packet_type == Types.publish
            then i.messages_sent + 1
            else i.messages_sent;
      })
      w)

-- the end of `WritePacket`, from the encoder's answer and that of the connection
unfoldable pub transmit : Env → ℕ → Packet → Option Failure × Bytes → Action
transmit env cl pk (some e, bytes) w = (some e, w)
transmit env cl pk (none, bytes) w =
    if ltb 0 pk.mods.max_size && ltb pk.mods.max_size (length bytes % 2 ^ 32)
    then (code_error err_packet_too_large, w)
    else elim (env.network w cl bytes) [
      | some e ↦ (some e, w)
      | none ↦ (none, sent env cl pk bytes w)
    ]

-- `WritePacket`
pub write_packet : Env → ℕ → Packet → Action
write_packet env cl pk w =
    if not (w.heap cl).is_open
    then (some connection_closed, w)
    else if not (w.heap cl).has_conn
    then (none, w)
    else (let out = on_packet_encode env.hooks (w, cl) (outgoing env w cl pk) in
        transmit env cl out (encode_packet out) w)

-- `Stop`: only the first call counts
pub stop : Option Failure → ℤ → Client → Client
stop cause now c = if c.ended then c else record c {
  ended = true;
  is_open = false;
  stop_cause = elim cause [ none ↦ c.stop_cause | some e ↦ some e ];
  disconnected = now;
}

-- the reason that the packets of a failure carry
abbrev pub reason_of : Code → Bytes → Bytes
reason_of code otherwise = if is_failure (code_byte code) then codes (reason code) else otherwise

-- the packet of `DisconnectClient`
pub disconnect_packet : Code → Packet
disconnect_packet code = record no_packet {
  fixed_header = record blank { packet_type = Types.disconnect };
  reason_code = code_byte code;
  properties = record no_properties { reason_string = reason_of code [] };
}

-- `DisconnectClient`
pub disconnect_client : Env → ℕ → Code → Action
disconnect_client env cl code w =
    let (e, w') = write_packet env cl (disconnect_packet code) w in
    if env.capabilities.passive_client_disconnect then (e, w') else (
      if is_failure (code_byte code) then code_error code else e,
      update_client cl (stop (code_error code) w'.now) w',
    )
