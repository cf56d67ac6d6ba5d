-- ===== src/Server/Storing.antt =====
-- The records of broker/hooks/storage/storage.go, the messages that the hooks of
-- broker/hooks/storage/badger/badger.go and broker/hooks/storage/bolt/bolt.go put into a store, and the
-- packets that come out of it. The encoding of a record is the encoding/json package's.
use mqtt_protocol_v.Common.{ℕ, ◌≡◌, Bool, true, false, List, refl}
use mqtt_protocol_v.Common.Equality.{Bytes}
use mqtt_protocol_v.Common.Int.{ℤ, pos}
use mqtt_protocol_v.Packets.FixedHeader.{FixedHeader}
use mqtt_protocol_v.Packets.UserProperty.{UserProperty}
use mqtt_protocol_v.Packets.Properties.{Properties, no_properties}
use mqtt_protocol_v.Packets.Properties.Copy
use mqtt_protocol_v.Packets.Properties.Copy.{copy_lem}
use mqtt_protocol_v.Packets.Packet.{Packet, no_packet}
use mqtt_protocol_v.Packets.Packet.Copying.{copy}

-- `MessageProperties` of the store
pub record MessageProperties : Type 0 where
  pub correlation_data : Bytes
  pub subscription_identifier : List ℕ
  pub user : List UserProperty
  pub content_type : Bytes
  pub response_topic : Bytes
  pub message_expiry_interval : ℕ
  pub topic_alias : ℕ
  pub payload_format : ℕ
  pub payload_format_flag : Bool

-- `Message` of the store, without the type and the key of the record
pub record Message : Type 0 where
  pub properties : MessageProperties
  pub payload : Bytes
  pub client : Bytes
  pub origin : Bytes
  pub topic_name : Bytes
  pub fixed_header : FixedHeader
  pub created : ℤ
  pub sent : ℤ
  pub packet_id : ℕ

-- `Subscription` of the store, without the type and the key of the record
pub record StoredSubscription : Type 0 where
  pub client : Bytes
  pub filter : Bytes
  pub identifier : ℕ
  pub retain_handling : ℕ
  pub qos : ℕ
  pub retain_as_published : Bool
  pub no_local : Bool

-- the packet of a message, before it is copied
restored : Message → Packet
restored d = record no_packet {
  fixed_header = d.fixed_header;
  packet_id = d.packet_id;
  topic_name = d.topic_name;
  payload = d.payload;
  origin = d.origin;
  created = d.created;
  properties = record no_properties {
    payload_format = d.properties.payload_format;
    payload_format_flag = d.properties.payload_format_flag;
    message_expiry_interval = d.properties.message_expiry_interval;
    content_type = d.properties.content_type;
    response_topic = d.properties.response_topic;
    correlation_data = d.properties.correlation_data;
    subscription_identifier = d.properties.subscription_identifier;
    topic_alias = d.properties.topic_alias;
    user = d.properties.user;
  };
}

-- `ToPacket`
unfoldable pub to_packet : Message → Packet
unfolding restored
to_packet d =
    let pk = copy (restored d) true in
    record pk { fixed_header = record pk.fixed_header { dup = d.fixed_header.dup } }

-- the properties that the hooks store, of those they have copied
stored_properties : Properties → MessageProperties
stored_properties props = record {
  correlation_data = props.correlation_data;
  subscription_identifier = props.subscription_identifier;
  user = props.user;
  content_type = props.content_type;
  response_topic = props.response_topic;
  message_expiry_interval = props.message_expiry_interval;
  topic_alias = props.topic_alias;
  payload_format = props.payload_format;
  payload_format_flag = false;
}

-- `OnQosPublish` of the Badger hook, which stores a message that is in flight to a client
unfoldable pub badger_message : Bytes → Packet → ℤ → Message
unfolding stored_properties
badger_message client pk sent = record {
  properties = stored_properties (Copy.copy pk.properties false);
  payload = pk.payload;
  client = client;
  origin = pk.origin;
  topic_name = pk.topic_name;
  fixed_header = pk.fixed_header;
  created = pk.created;
  sent = sent;
  packet_id = pk.packet_id;
}

-- `OnQosPublish` of the Bolt hook
unfoldable pub bolt_message : Bytes → Packet → ℤ → Message
unfolding stored_properties
bolt_message client pk sent = record {
  properties = stored_properties (Copy.copy pk.properties false);
  payload = pk.payload;
  client = client;
  origin = pk.origin;
  topic_name = pk.topic_name;
  fixed_header = pk.fixed_header;
  created = pk.created;
  sent = sent;
  packet_id = 0;
}

-- `OnRetainMessage` of the Bolt hook, for a message that is kept
unfoldable pub bolt_retained : Bytes → Packet → Message
unfolding stored_properties
bolt_retained client pk = record {
  properties = stored_properties (Copy.copy pk.properties false);
  payload = pk.payload;
  client = client;
  origin = pk.origin;
  topic_name = pk.topic_name;
  fixed_header = pk.fixed_header;
  created = pk.created;
  sent = pos 0;
  packet_id = 0;
}

-- what is left of a packet after a restart
pub surviving : Packet → ℕ → Packet
surviving pk packet_id = record no_packet {
  fixed_header = pk.fixed_header;
  packet_id = packet_id;
  topic_name = pk.topic_name;
  payload = pk.payload;
  origin = pk.origin;
  created = pk.created;
  properties = record no_properties {
    payload_format = pk.properties.payload_format;
    message_expiry_interval = pk.properties.message_expiry_interval;
    content_type = pk.properties.content_type;
    response_topic = pk.properties.response_topic;
    correlation_data = pk.properties.correlation_data;
    subscription_identifier = pk.properties.subscription_identifier;
    user = pk.properties.user;
  };
}

to_packet-restored : (d : Message) → to_packet d ≡ restored d
unfolding to_packet restored copy
to_packet-restored d = rw ((copy_lem (restored d).properties).0, (copy_lem no_properties).0) refl

-- A message that was stored comes back with its header, topic, payload, origin and time, and with the
-- properties of a message except its topic alias and the flag of its payload format; its expiry and its
-- protocol version are zero. From the Badger hook an in-flight message has its packet id, from the Bolt
-- hook its id is 0, as is that of a retained message.
pub to_packet-stored :
    (client : Bytes) (pk : Packet) (sent : ℤ)
    → (to_packet (badger_message client pk sent) ≡ surviving pk pk.packet_id)
      × (to_packet (bolt_message client pk sent) ≡ surviving pk 0)
      × (to_packet (bolt_retained client pk) ≡ surviving pk 0)
unfolding restored badger_message bolt_message bolt_retained stored_properties surviving
to_packet-stored client pk sent =
    rw
      (
        to_packet-restored (badger_message client pk sent),
        to_packet-restored (bolt_message client pk sent),
        to_packet-restored (bolt_retained client pk),
        (copy_lem pk.properties).1,
      )
      (refl, refl, refl)
