-- ===== src/Packets/Properties.antt =====
-- `Properties` of broker/packets/properties.go: the MQTT 5 properties of a packet.
pub mod Keys
pub mod Copy
pub mod Encode
pub mod Decode
mod Runs
use mqtt_protocol_v.Common.{ℕ, Bool, false, List, []}
use mqtt_protocol_v.Common.Equality.{Bytes}
use mqtt_protocol_v.Packets.UserProperty.{UserProperty}

-- A `nil` slice and an empty one are both `[]`. A subscription identifier is a Go `int` that
-- `DecodeLength` has read.
pub record Properties : Type 0 where
  pub correlation_data : Bytes
  pub subscription_identifier : List ℕ
  pub authentication_data : Bytes
  pub user : List UserProperty
  pub content_type : Bytes
  pub response_topic : Bytes
  pub assigned_client_id : Bytes
  pub authentication_method : Bytes
  pub response_info : Bytes
  pub server_reference : Bytes
  pub reason_string : Bytes
  pub message_expiry_interval : ℕ
  pub session_expiry_interval : ℕ
  pub will_delay_interval : ℕ
  pub maximum_packet_size : ℕ
  pub server_keep_alive : ℕ
  pub receive_maximum : ℕ
  pub topic_alias_maximum : ℕ
  pub topic_alias : ℕ
  pub payload_format : ℕ
  pub payload_format_flag : Bool
  pub session_expiry_interval_flag : Bool
  pub server_keep_alive_flag : Bool
  pub request_problem_info : ℕ
  pub request_problem_info_flag : Bool
  pub request_response_info : ℕ
  pub topic_alias_flag : Bool
  pub maximum_qos : ℕ
  pub maximum_qos_flag : Bool
  pub retain_available : ℕ
  pub retain_available_flag : Bool
  pub wildcard_sub_available : ℕ
  pub wildcard_sub_available_flag : Bool
  pub sub_id_available : ℕ
  pub sub_id_available_flag : Bool
  pub shared_sub_available : ℕ
  pub shared_sub_available_flag : Bool

-- the zero value
abbrev pub no_properties : Properties
no_properties = record {
  correlation_data = [];
  subscription_identifier = [];
  authentication_data = [];
  user = [];
  content_type = [];
  response_topic = [];
  assigned_client_id = [];
  authentication_method = [];
  response_info = [];
  server_reference = [];
  reason_string = [];
  message_expiry_interval = 0;
  session_expiry_interval = 0;
  will_delay_interval = 0;
  maximum_packet_size = 0;
  server_keep_alive = 0;
  receive_maximum = 0;
  topic_alias_maximum = 0;
  topic_alias = 0;
  payload_format = 0;
  payload_format_flag = false;
  session_expiry_interval_flag = false;
  server_keep_alive_flag = false;
  request_problem_info = 0;
  request_problem_info_flag = false;
  request_response_info = 0;
  topic_alias_flag = false;
  maximum_qos = 0;
  maximum_qos_flag = false;
  retain_available = 0;
  retain_available_flag = false;
  wildcard_sub_available = 0;
  wildcard_sub_available_flag = false;
  sub_id_available = 0;
  sub_id_available_flag = false;
  shared_sub_available = 0;
  shared_sub_available_flag = false;
}
