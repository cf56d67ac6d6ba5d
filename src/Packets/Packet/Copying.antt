-- ===== src/Packets/Packet/Copying.antt =====
-- `Packet.Copy`.
use mqtt_protocol_v.Common.{Bool, ltb, length, if◌then◌else◌}
use mqtt_protocol_v.Packets.Packet.{Packet, ConnectParams, no_packet}
use mqtt_protocol_v.Packets.FixedHeader.{blank}
use mqtt_protocol_v.Packets.Packet.{no_connect}
use mqtt_protocol_v.Packets.Properties.Copy

-- the connection parameters in the struct literal
copied_connect : ConnectParams → Bool → ConnectParams
copied_connect c allow_transfer = record no_connect {
  client_identifier = c.client_identifier;
  keepalive = c.keepalive;
  will_qos = c.will_qos;
  will_topic = c.will_topic;
  will_flag = c.will_flag;
  will_retain = c.will_retain;
  will_properties = Copy.copy c.will_properties allow_transfer;
  clean = c.clean;
}

-- the byte slices of the connection parameters, copied where they are not empty
copied_slices : ConnectParams → ConnectParams → ConnectParams
copied_slices c made = record made {
  protocol_name = c.protocol_name;
  password_flag = ltb 0 (length c.password);
  password = c.password;
  username_flag = ltb 0 (length c.username);
  username = c.username;
  will_payload = c.will_payload;
}

-- `Packet.Copy`
unfoldable pub copy : Packet → Bool → Packet
unfolding copied_connect copied_slices
copy pk allow_transfer = record no_packet {
  fixed_header = record blank {
    remaining = pk.fixed_header.remaining;
    packet_type = pk.fixed_header.packet_type;
    retain = pk.fixed_header.retain;
    qos = pk.fixed_header.qos;
  };
  mods = record no_packet.mods { max_size = pk.mods.max_size };
  reserved_bit = pk.reserved_bit;
  protocol_version = pk.protocol_version;
  connect = copied_slices pk.connect (copied_connect pk.connect allow_transfer);
  topic_name = pk.topic_name;
  properties = Copy.copy pk.properties allow_transfer;
  session_present = pk.session_present;
  reason_code = pk.reason_code;
  filters = pk.filters;
  created = pk.created;
  expiry = pk.expiry;
  origin = pk.origin;
  packet_id = if allow_transfer then pk.packet_id else 0;
  payload = pk.payload;
  reason_codes = pk.reason_codes;
}
