-- ===== src/Server/Attaching.antt =====
-- `attachClient` of broker/server.go and the read loop of broker/clients.go. What a connection
-- delivers is a parameter: the CONNECT, the packets that follow, and the error that ends the reading.
-- The clean-up that `defer` leaves to the end is written at each return; wrapped errors are kept bare.
pub mod Refusal
use mqtt_protocol_v.Common.{
  ℕ, ◌+◌, ◌-◌, Bool, true, false, not, ◌&&◌, ◌||◌, Option, none, some, List, [], ◌∷◌, ◌==◌, ltb,
  leb, if◌then◌else◌,
}
use mqtt_protocol_v.Common.Equality.{Bytes, bytes_instance}
use mqtt_protocol_v.Common.Map
use mqtt_protocol_v.Packets.Codes.{
  Code, code_success, err_server_busy, err_server_unavailable, err_bad_username_or_password,
}
use mqtt_protocol_v.Packets.Packet.{Packet}
use mqtt_protocol_v.Packets.Properties.{Properties, no_properties}
use mqtt_protocol_v.Server.Failures.{Failure, code_error, is_success}
use mqtt_protocol_v.Server.Hooks.{on_connect, on_connect_authenticate, on_packet_read}
use mqtt_protocol_v.Server.State.{
  Client, World, Env, Action, session_establish, session_established, disconnected, update_client,
  count, notify, ◌>>◌,
}
use mqtt_protocol_v.Server.Writing.{stop}
use mqtt_protocol_v.Server.Wills.{no_will, send_lwt}
use mqtt_protocol_v.Server.Subscribing.{unsubscribe_client}
use mqtt_protocol_v.Server.Handling.{receive_packet}
use mqtt_protocol_v.Server.Connecting.{parse_connect, validate_connect, send_connack}
use mqtt_protocol_v.Server.Sessions.{
  clear_inflights, inherit_client_session, resend_inflight_messages,
}

-- what a connection delivers after the CONNECT
pub record Inbox : Type 0 where
  pub packets : List Packet
  pub ending : Failure

-- the handler, for a packet that the hooks have seen
pub handle_read : Env → ℕ → Packet × Option Failure → Action
handle_read env cl (pk, some e) w = (some e, w)
handle_read env cl (pk, none) w = receive_packet env cl pk w

-- `Read`
pub read : Env → ℕ → Failure → List Packet → Action
read env cl ending [] w = if (w.heap cl).is_open then (some ending, w) else (none, w)
read env cl ending (pk ∷ pks) w =
    let next = handle_read env cl (on_packet_read env.hooks (w, cl) pk) w in
    if (w.heap cl).is_open then next >> read env cl ending pks else (none, w)

-- whether the session of a client ends with its connection
pub ends_session : Client → Bool
ends_session c =
    (c.protocol_version == 5 && c.props.session_expiry_interval == 0)
    || (ltb c.protocol_version 5 && c.clean)

-- the end of the connection: the will, or none
pub after_read : Env → ℕ → Option Failure × World → World
after_read env cl (none, w) = update_client cl (λ c. record c { will = no_will }) w
after_read env cl (some e, w) =
    let w' = send_lwt env cl w in update_client cl (stop (some e) w'.now) w'

-- the end of the session, where it ends
pub close_session : ℕ → Option Failure → World → World
close_session cl e w =
    let expire = ends_session (w.heap cl) in
    let told = notify (disconnected cl e expire) w in
    let cleared = unsubscribe_client cl (clear_inflights cl told) in
    if expire && not (w.heap cl).taken_over
    then record cleared { clients = Map.delete (w.heap cl).id cleared.clients }
    else told

-- from the read loop to the end
pub serve : Env → ℕ → Packet → Inbox → Action
serve env cl pk inbox w =
    let (e, w') = read env cl inbox.ending inbox.packets (notify (session_established cl pk) w) in
    (e, close_session cl e (after_read env cl (e, w')))

-- the session of a client that is let in
pub establish : Env → ℕ → Packet → Inbox → Action
establish env cl pk inbox w =
    let counted = count (λ i. record i { clients_connected = i.clients_connected + 1 }) w in
    let (present, inherited) =
      inherit_client_session env pk cl (notify (session_establish cl pk) counted) in
    let added = record inherited {
      clients = Map.insert (inherited.heap cl).id cl inherited.clients;
    } in
    let (e, w') = send_connack env cl code_success present no_properties added >> λ greeted.
    let undelayed = record greeted {
      will_delayed = Map.delete (greeted.heap cl).id greeted.will_delayed;
    } in
    (if present then resend_inflight_messages env cl undelayed else (none, undelayed))
    >> serve env cl pk inbox in
    (e, count (λ i. record i { clients_connected = i.clients_connected - 1 }) w')

-- the CONNACK of a refusal, and the error
pub turn_away : Env → ℕ → Code → Action
turn_away env cl code w =
    send_connack env cl code false no_properties w >> λ w'. (code_error code, w')

-- a connection that has passed the validation
pub authenticate : Env → ℕ → Packet → Inbox → Action
authenticate env cl pk inbox w =
    if not (on_connect_authenticate env.hooks (w, cl) pk)
    then turn_away env cl err_bad_username_or_password w
    else establish env cl pk inbox w

pub greet : Env → ℕ → Packet → Inbox → Option Failure → Action
greet env cl pk inbox none w = authenticate env cl pk inbox w
greet env cl pk inbox (some e) w = (some e, w)

-- the code of the validation
pub examine : Env → ℕ → Packet → Inbox → Code → Action
examine env cl pk inbox code w =
    if is_success code
    then greet env cl pk inbox (on_connect env.hooks (w, cl) pk) w
    else turn_away env cl code w

-- a client that has sent its CONNECT
unfoldable pub let_in : Env → ℕ → Packet → Inbox → Action
let_in env cl pk inbox w =
    if leb env.capabilities.maximum_clients w.info.clients_connected
    then (
      code_error err_server_busy,
      (send_connack env cl
          (if ltb (w.heap cl).protocol_version 5 then err_server_unavailable else err_server_busy)
          false no_properties w).1,
    )
    else examine env cl pk inbox (validate_connect env (w.heap cl) pk) w

-- `attachClient`, from the packet that was read
pub attach_client : Env → Bytes → Bytes → ℕ → Packet → Inbox → Action
attach_client env generated listener cl pk inbox w =
    let parsed = update_client cl (parse_connect env generated listener pk) w in
    let (e, w') = let_in env cl pk inbox parsed in (e, update_client cl (stop none w'.now) w')
