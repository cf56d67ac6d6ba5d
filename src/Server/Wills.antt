-- ===== src/Server/Wills.antt =====
-- `sendLWT` and `sendDelayedLWT` of broker/server.go.
use mqtt_protocol_v.Common.{ℕ, false, not, Option, none, some, [], ◌∷◌, ltb, if◌then◌else◌}
use mqtt_protocol_v.Common.Equality.{Bytes, bytes_instance}
use mqtt_protocol_v.Common.Int.{ℤ, pos, ltb_ℤ}
use mqtt_protocol_v.Common.Map
use mqtt_protocol_v.Common.Map.{Map}
use mqtt_protocol_v.Packets.Types
use mqtt_protocol_v.Packets.FixedHeader.{blank}
use mqtt_protocol_v.Packets.Packet.{Packet, no_packet, no_connect}
use mqtt_protocol_v.Packets.Properties.{no_properties}
use mqtt_protocol_v.Server.Hooks.{Will, on_will}
use mqtt_protocol_v.Server.State.{World, Env, will_sent, update_client, notify}
use mqtt_protocol_v.Server.Acks.{plus}
use mqtt_protocol_v.Server.Delivery.{retain, publish_to_subscribers}

-- the message of a will
pub will_message : Will → Bytes → ℤ → Packet
will_message will origin now = record no_packet {
  fixed_header = record blank { packet_type = Types.publish; retain = will.retain; qos = will.qos };
  topic_name = will.topic_name;
  payload = will.payload;
  properties = record no_properties { user = will.user };
  origin = origin;
  created = now;
}

-- the message of a will that waits
pub delayed : ℕ → ℤ → Packet → Packet
delayed interval now pk = record pk {
  connect = record no_connect {
    will_properties = record no_properties { will_delay_interval = interval };
  };
  expiry = plus now (pos interval);
}

-- `sendLWT`
unfoldable pub send_lwt : Env → ℕ → World → World
send_lwt env cl w =
    let c = w.heap cl in
    let pk = will_message (on_will env.hooks (w, cl) c.will) c.id w.now in
    if not c.will.flag
    then w
    else if ltb 0 c.will.will_delay_interval
    then record w {
      will_delayed = Map.insert c.id (delayed c.will.will_delay_interval w.now pk) w.will_delayed;
    }
    else notify (will_sent cl pk) (
        update_client cl (λ d. record d { will = record d.will { flag = false } })
          (publish_to_subscribers env pk
            (if pk.fixed_header.retain then retain env cl pk w else w)))

-- `Will{}`
abbrev pub no_will : Will
no_will = record {
  payload = [];
  user = [];
  topic_name = [];
  flag = false;
  will_delay_interval = 0;
  qos = 0;
  retain = false;
}

-- what follows for the client of a delayed will, if there is one
pub will_issued : Env → Packet → Option ℕ → World → World
will_issued env pk none w = w
will_issued env pk (some cl) w = notify (will_sent cl pk) (
    update_client cl (λ c. record c { will = no_will })
      (if pk.fixed_header.retain then retain env cl pk w else w))

-- the loop of `sendDelayedLWT`
pub issue_wills : Env → ℤ → Map Bytes Packet → World → World
issue_wills env dt [] w = w
issue_wills env dt ((id, pk) ∷ wills) w =
    let published = publish_to_subscribers env pk w in
    let issued = will_issued env pk (Map.lookup id published.clients) published in
    issue_wills env dt wills (
      if ltb_ℤ pk.expiry dt
      then record issued { will_delayed = Map.delete id issued.will_delayed }
      else w)

-- `sendDelayedLWT`
pub send_delayed_lwt : Env → ℤ → World → World
send_delayed_lwt env dt w = issue_wills env dt w.will_delayed w
