-- ===== src/Server/Connecting.antt =====
-- `ParseConnect` of broker/clients.go, and `validateConnect` and `SendConnack` of broker/server.go.
use mqtt_protocol_v.Common.{
  ℕ, Bool, true, false, not, ◌&&◌, Option, none, some, ◌==◌, ltb, length, if◌then◌else◌,
}
use mqtt_protocol_v.Common.Equality.{Bytes, codes}
use mqtt_protocol_v.Packets.Types
use mqtt_protocol_v.Packets.FixedHeader.{blank}
use mqtt_protocol_v.Packets.Codes.{
  Code, code_byte, reason, code_success, v5_codes_to_v3, err_unspecified_error,
  err_unsupported_protocol_version, err_qos_not_supported, err_retain_not_supported,
}
use mqtt_protocol_v.Packets.Packet.{Packet, no_packet}
use mqtt_protocol_v.Packets.Packet.Connect.{connect_validate}
use mqtt_protocol_v.Packets.Properties.{Properties}
use mqtt_protocol_v.Packets.Properties.Copy
use mqtt_protocol_v.Session.Aliases.{new_outbound}
use mqtt_protocol_v.Session.Inflight.{reset_receive_quota, reset_send_quota}
use mqtt_protocol_v.Server.Failures.{is_failure, is_success}
use mqtt_protocol_v.Server.Hooks.{Will}
use mqtt_protocol_v.Server.State.{Client, Env, Action, update_client}
use mqtt_protocol_v.Server.Writing.{write_packet}

-- the will of a CONNECT; its delay is at most the session expiry interval, where that is given
pub will_of : Packet → Will
will_of pk =
    let delay = pk.connect.will_properties.will_delay_interval in
    let most = pk.properties.session_expiry_interval in
    record {
      payload = pk.connect.will_payload;
      user = pk.connect.will_properties.user;
      topic_name = pk.connect.will_topic;
      flag = true;
      will_delay_interval =
          if pk.properties.session_expiry_interval_flag && ltb most delay then most else delay;
      qos = pk.connect.will_qos;
      retain = pk.connect.will_retain;
    }

-- the properties of a CONNECT, with the receive maximum that the broker allows
pub props_of : Env → Packet → Bytes → Properties
props_of env pk generated =
    let props = Copy.copy pk.properties false in
    record props {
      receive_maximum =
          if ltb env.capabilities.maximum_inflight props.receive_maximum
          then env.capabilities.maximum_inflight
          else props.receive_maximum;
      assigned_client_id =
          if length pk.connect.client_identifier == 0 then generated else props.assigned_client_id;
    }

-- `ParseConnect`; `generated` is the id that xid makes for a client without one
unfoldable pub parse_connect : Env → Bytes → Bytes → Packet → Client → Client
parse_connect env generated lid pk c =
    let props = props_of env pk generated in
    record c {
      listener = lid;
      protocol_version = pk.protocol_version;
      username = pk.connect.username;
      clean = pk.connect.clean;
      props = props;
      keepalive = pk.connect.keepalive;
      inflight =
          reset_send_quota (reset_receive_quota c.inflight env.capabilities.receive_maximum)
            props.receive_maximum;
      outbound_aliases = new_outbound props.topic_alias_maximum;
      id =
          if length pk.connect.client_identifier == 0
          then generated
          else pk.connect.client_identifier;
      will = if pk.connect.will_flag then will_of pk else c.will;
    }

-- the tests of `validateConnect` that follow `ConnectValidate`
unfoldable pub supported : Env → Client → Packet → Code
supported env c pk =
    if ltb c.protocol_version 5
      && (not pk.connect.clean && length pk.connect.client_identifier == 0)
    then err_unspecified_error
    else if ltb c.protocol_version env.capabilities.minimum_protocol_version
    then err_unsupported_protocol_version
    else if ltb env.capabilities.maximum_qos c.will.qos
    then err_qos_not_supported
    else if c.will.retain && env.capabilities.retain_available == 0
    then err_retain_not_supported
    else code_success

-- `validateConnect`
unfoldable pub validate_connect : Env → Client → Packet → Code
validate_connect env c pk =
    let code = connect_validate pk in if is_success code then supported env c pk else code

-- the reason for a client of version 3
pub or_v3 : Option Code → Code → Code
or_v3 none code = code
or_v3 (some v3) code = v3

-- the CONNACK of a refusal
pub refusal : Client → Code → Properties → Packet
refusal c code properties =
    let said = if ltb c.protocol_version 5 then or_v3 (v5_codes_to_v3 code) code else code in
    record no_packet {
      fixed_header = record blank { packet_type = Types.connack };
      session_present = false;
      reason_code = code_byte said;
      properties = record properties { reason_string = codes (reason said) };
    }

-- the properties of every CONNACK
pub common_properties : Env → Client → Properties → Properties
common_properties env c properties = record properties {
  receive_maximum = env.capabilities.receive_maximum;
  server_keep_alive = if c.server_keepalive then c.keepalive else properties.server_keep_alive;
  server_keep_alive_flag = if c.server_keepalive then true else properties.server_keep_alive_flag;
}

-- whether a client asks for a longer session than the broker keeps
abbrev pub is_too_long : Env → Client → Bool
is_too_long env c =
    ltb env.capabilities.maximum_session_expiry_interval c.props.session_expiry_interval

-- the properties of the CONNACK of a client that is let in
pub granted_properties : Env → Client → Properties → Properties
granted_properties env c properties = record properties {
  maximum_qos =
      if ltb env.capabilities.maximum_qos 2
      then env.capabilities.maximum_qos
      else properties.maximum_qos;
  maximum_qos_flag =
      if ltb env.capabilities.maximum_qos 2 then true else properties.maximum_qos_flag;
  assigned_client_id =
      if length c.props.assigned_client_id == 0
      then properties.assigned_client_id
      else c.props.assigned_client_id;
  session_expiry_interval =
      if is_too_long env c
      then env.capabilities.maximum_session_expiry_interval
      else properties.session_expiry_interval;
  session_expiry_interval_flag =
      if is_too_long env c then true else properties.session_expiry_interval_flag;
}

-- the bound on the session of the client
pub bounded : Env → Client → Client
bounded env c =
    if is_too_long env c
    then record c {
      props = record c.props {
        session_expiry_interval = env.capabilities.maximum_session_expiry_interval;
        session_expiry_interval_flag = true;
      };
    }
    else c

-- `SendConnack`, from the properties that are given, or those of the struct literal
unfoldable pub send_connack : Env → ℕ → Code → Bool → Properties → Action
send_connack env cl code present properties w =
    let c = w.heap cl in
    let common = common_properties env c properties in
    if is_failure (code_byte code)
    then write_packet env cl (refusal c code common) w
    else write_packet env cl
        (record no_packet {
          fixed_header = record blank { packet_type = Types.connack };
          session_present = present;
          reason_code = code_byte code;
          properties = granted_properties env c common;
        })
        (update_client cl (bounded env) w)
