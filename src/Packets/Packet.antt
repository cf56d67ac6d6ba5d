-- ===== src/Packets/Packet.antt =====
-- The packet, subscription and connection structs of broker/packets/packets.go.
pub mod Body
pub mod Connect
pub mod Session
pub mod Publish
pub mod Acks
pub mod Subscribe
pub mod Unsubscribe
pub mod Copying
mod Runs
use mqtt_protocol_v.Common.{ℕ, Bool, false, List, [], Option, none}
use mqtt_protocol_v.Common.Equality.{Bytes}
use mqtt_protocol_v.Common.Int.{ℤ, pos}
use mqtt_protocol_v.Common.Map.{Map}
use mqtt_protocol_v.Packets.FixedHeader.{FixedHeader, blank}
use mqtt_protocol_v.Packets.Properties.{Properties, no_properties}

-- `Mods`
pub record Mods : Type 0 where
  pub max_size : ℕ
  pub disallow_problem_info : Bool
  pub allow_response_info : Bool

-- `ConnectParams`
pub record ConnectParams : Type 0 where
  pub will_properties : Properties
  pub password : Bytes
  pub username : Bytes
  pub protocol_name : Bytes
  pub will_payload : Bytes
  pub client_identifier : Bytes
  pub will_topic : Bytes
  pub keepalive : ℕ
  pub password_flag : Bool
  pub username_flag : Bool
  pub will_qos : ℕ
  pub will_flag : Bool
  pub will_retain : Bool
  pub clean : Bool

-- `Subscription`; a `nil` map of identifiers is `none`.
pub record Subscription : Type 0 where
  pub share_name : List Bytes
  pub filter : Bytes
  pub identifier : ℕ
  pub identifiers : Option (Map Bytes ℕ)
  pub retain_handling : ℕ
  pub qos : ℕ
  pub retain_as_published : Bool
  pub no_local : Bool
  pub fwd_retained_flag : Bool

-- `Packet`
pub record Packet : Type 0 where
  pub connect : ConnectParams
  pub properties : Properties
  pub payload : Bytes
  pub reason_codes : Bytes
  pub filters : List Subscription
  pub topic_name : Bytes
  pub origin : Bytes
  pub fixed_header : FixedHeader
  pub created : ℤ
  pub expiry : ℤ
  pub mods : Mods
  pub packet_id : ℕ
  pub protocol_version : ℕ
  pub session_present : Bool
  pub reason_code : ℕ
  pub reserved_bit : ℕ
  pub ignore : Bool

-- the zero values of the structs
abbrev pub no_connect : ConnectParams
no_connect = record {
  will_properties = no_properties;
  password = [];
  username = [];
  protocol_name = [];
  will_payload = [];
  client_identifier = [];
  will_topic = [];
  keepalive = 0;
  password_flag = false;
  username_flag = false;
  will_qos = 0;
  will_flag = false;
  will_retain = false;
  clean = false;
}

abbrev pub no_packet : Packet
no_packet = record {
  connect = no_connect;
  properties = no_properties;
  payload = [];
  reason_codes = [];
  filters = [];
  topic_name = [];
  origin = [];
  fixed_header = blank;
  created = pos 0;
  expiry = pos 0;
  mods = record { max_size = 0; disallow_problem_info = false; allow_response_info = false };
  packet_id = 0;
  protocol_version = 0;
  session_present = false;
  reason_code = 0;
  reserved_bit = 0;
  ignore = false;
}

abbrev pub no_subscription : Subscription
no_subscription = record {
  share_name = [];
  filter = [];
  identifier = 0;
  identifiers = none;
  retain_handling = 0;
  qos = 0;
  retain_as_published = false;
  no_local = false;
  fwd_retained_flag = false;
}
