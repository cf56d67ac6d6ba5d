-- ===== src/Packets/Properties/Keys.antt =====
-- The keys of the properties, and the packet types that may carry them, of
-- broker/packets/properties.go.
use mqtt_protocol_v.Common.{ℕ, Bool, false, none, some, List, [], ◌∷◌, ◌||◌, ◌==◌}
use mqtt_protocol_v.Common.Equality.{nat_eq}
use mqtt_protocol_v.Common.Map
use mqtt_protocol_v.Common.Map.{Map}
use mqtt_protocol_v.Packets.Types

abbrev pub payload_format : ℕ
payload_format = 1

abbrev pub message_expiry_interval : ℕ
message_expiry_interval = 2

abbrev pub content_type : ℕ
content_type = 3

abbrev pub response_topic : ℕ
response_topic = 8

abbrev pub correlation_data : ℕ
correlation_data = 9

abbrev pub subscription_identifier : ℕ
subscription_identifier = 11

abbrev pub session_expiry_interval : ℕ
session_expiry_interval = 17

abbrev pub assigned_client_id : ℕ
assigned_client_id = 18

abbrev pub server_keep_alive : ℕ
server_keep_alive = 19

abbrev pub authentication_method : ℕ
authentication_method = 21

abbrev pub authentication_data : ℕ
authentication_data = 22

abbrev pub request_problem_info : ℕ
request_problem_info = 23

abbrev pub will_delay_interval : ℕ
will_delay_interval = 24

abbrev pub request_response_info : ℕ
request_response_info = 25

abbrev pub response_info : ℕ
response_info = 26

abbrev pub server_reference : ℕ
server_reference = 28

abbrev pub reason_string : ℕ
reason_string = 31

abbrev pub receive_maximum : ℕ
receive_maximum = 33

abbrev pub topic_alias_maximum : ℕ
topic_alias_maximum = 34

abbrev pub topic_alias : ℕ
topic_alias = 35

abbrev pub maximum_qos : ℕ
maximum_qos = 36

abbrev pub retain_available : ℕ
retain_available = 37

abbrev pub user : ℕ
user = 38

abbrev pub maximum_packet_size : ℕ
maximum_packet_size = 39

abbrev pub wildcard_sub_available : ℕ
wildcard_sub_available = 40

abbrev pub sub_id_available : ℕ
sub_id_available = 41

abbrev pub shared_sub_available : ℕ
shared_sub_available = 42

-- `validPacketProperties`: the packet types of each key
valid_packets : Map ℕ (List ℕ)
valid_packets =
    (payload_format, Types.publish ∷ Types.will_properties ∷ [])
    ∷ (message_expiry_interval, Types.publish ∷ Types.will_properties ∷ [])
    ∷ (content_type, Types.publish ∷ Types.will_properties ∷ [])
    ∷ (response_topic, Types.publish ∷ Types.will_properties ∷ [])
    ∷ (correlation_data, Types.publish ∷ Types.will_properties ∷ [])
    ∷ (subscription_identifier, Types.publish ∷ Types.subscribe ∷ [])
    ∷ (session_expiry_interval, Types.connect ∷ Types.connack ∷ Types.disconnect ∷ [])
    ∷ (assigned_client_id, Types.connack ∷ [])
    ∷ (server_keep_alive, Types.connack ∷ [])
    ∷ (authentication_method, Types.connect ∷ Types.connack ∷ Types.auth ∷ [])
    ∷ (authentication_data, Types.connect ∷ Types.connack ∷ Types.auth ∷ [])
    ∷ (request_problem_info, Types.connect ∷ [])
    ∷ (will_delay_interval, Types.will_properties ∷ [])
    ∷ (request_response_info, Types.connect ∷ [])
    ∷ (response_info, Types.connack ∷ [])
    ∷ (server_reference, Types.connack ∷ Types.disconnect ∷ [])
    ∷ (
      reason_string,
      Types.connack ∷ Types.puback ∷ Types.pubrec ∷ Types.pubrel ∷ Types.pubcomp ∷ Types.suback
          ∷ Types.unsuback ∷ Types.disconnect ∷ Types.auth ∷ [],
    )
    ∷ (receive_maximum, Types.connect ∷ Types.connack ∷ [])
    ∷ (topic_alias_maximum, Types.connect ∷ Types.connack ∷ [])
    ∷ (topic_alias, Types.publish ∷ [])
    ∷ (maximum_qos, Types.connack ∷ [])
    ∷ (retain_available, Types.connack ∷ [])
    ∷ (
      user,
      Types.connect ∷ Types.connack ∷ Types.publish ∷ Types.puback ∷ Types.pubrec ∷ Types.pubrel
          ∷ Types.pubcomp ∷ Types.subscribe ∷ Types.suback ∷ Types.unsubscribe ∷ Types.unsuback
          ∷ Types.disconnect ∷ Types.auth ∷ Types.will_properties ∷ [],
    )
    ∷ (maximum_packet_size, Types.connect ∷ Types.connack ∷ [])
    ∷ (wildcard_sub_available, Types.connack ∷ [])
    ∷ (sub_id_available, Types.connack ∷ [])
    ∷ (shared_sub_available, Types.connack ∷ [])
    ∷ []

-- membership in the inner map
member : ℕ → List ℕ → Bool
member pkt [] = false
member pkt (t ∷ ts) = t == pkt || member pkt ts

-- `canEncode`, and the test of `Decode`
unfoldable pub can_encode : ℕ → ℕ → Bool
unfolding valid_packets member
can_encode pkt k = elim (Map.lookup k valid_packets) [
  | none ↦ false
  | some types ↦ member pkt types
]
