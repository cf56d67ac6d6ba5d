-- ===== src/Server/State.antt =====
-- The state that the broker's handlers work on. A pointer to a client is a number, and the clients
-- are a heap: the client whose packet is handled may be one of the subscribers it is published to.
use mqtt_protocol_v.Common.{ℕ, Bool, Option, none, some, List, ◌∷◌, ◌==◌, if◌then◌else◌}
use mqtt_protocol_v.Common.Equality.{Bytes}
use mqtt_protocol_v.Common.Int.{ℤ}
use mqtt_protocol_v.Common.Map.{Map}
use mqtt_protocol_v.Packets.Packet.{Packet, Subscription}
use mqtt_protocol_v.Packets.Properties.{Properties}
use mqtt_protocol_v.Session.Aliases.{InboundAliases, OutboundAliases}
use mqtt_protocol_v.Session.Inflight.{Inflight}
use mqtt_protocol_v.Topics.Index.{TopicsIndex}
use mqtt_protocol_v.Server.Failures.{Failure}
use mqtt_protocol_v.Server.Hooks.{Hook, Will}

-- `Capabilities` and `Compatibilities`, the fields that the handlers read
pub record Capabilities : Type 0 where
  pub maximum_message_expiry_interval : ℕ
  pub maximum_clients : ℕ
  pub maximum_client_writes_pending : ℕ
  pub maximum_session_expiry_interval : ℕ
  pub maximum_packet_id : ℕ
  pub receive_maximum : ℕ
  pub topic_alias_maximum : ℕ
  pub minimum_protocol_version : ℕ
  pub maximum_inflight : ℕ
  pub maximum_qos : ℕ
  pub retain_available : ℕ
  pub obscure_not_authorized : Bool
  pub passive_client_disconnect : Bool
  pub always_return_response_info : Bool
  pub no_inherited_properties_on_ack : Bool

-- `Client`, `ClientConnection`, `ClientProperties` and `ClientState`. `has_conn` is whether `Net.Conn`
-- is set, `is_open` is whether the context `State.open` has not ended, and `ended` is `State.endOnce`.
pub record Client : Type 0 where
  pub id : Bytes
  pub inline : Bool
  pub listener : Bytes
  pub has_conn : Bool
  pub is_open : Bool
  pub ended : Bool
  pub stop_cause : Option Failure
  pub disconnected : ℤ
  pub taken_over : Bool
  pub username : Bytes
  pub keepalive : ℕ
  pub server_keepalive : Bool
  pub protocol_version : ℕ
  pub clean : Bool
  pub props : Properties
  pub will : Will
  pub inflight : Inflight
  pub packet_id : ℕ
  pub inbound : InboundAliases
  pub outbound_aliases : OutboundAliases
  pub subscriptions : Map Bytes Subscription
  pub outbound : List Packet
  pub outbound_qty : ℕ

-- `system.Info`, the counters that the handlers change
pub record Info : Type 0 where
  pub bytes_sent : ℕ
  pub packets_sent : ℕ
  pub messages_sent : ℕ
  pub messages_dropped : ℕ
  pub inflight : ℤ
  pub inflight_dropped : ℕ
  pub retained : ℕ
  pub packets_received : ℕ
  pub messages_received : ℕ
  pub clients_connected : ℕ
  pub clients_maximum : ℕ
  pub subscriptions : ℤ

-- What the broker tells its hooks, without asking for an answer, and the call of an inline
-- subscription's handler.
pub data Event : Type 0 where
  packet_sent : ℕ → Packet → Bytes → Event
  published : ℕ → Packet → Event
  publish_dropped : ℕ → Packet → Event
  message_retained : ℕ → Packet → ℤ → Event
  retain_published : ℕ → Packet → Event
  qos_publish : ℕ → Packet → Event
  qos_complete : ℕ → Packet → Event
  qos_dropped : ℕ → Packet → Event
  packet_id_exhausted : ℕ → Packet → Event
  subscribed : ℕ → Packet → Bytes → Event
  unsubscribed : ℕ → Packet → Event
  session_establish : ℕ → Packet → Event
  session_established : ℕ → Packet → Event
  disconnected : ℕ → Option Failure → Bool → Event
  packet_processed : ℕ → Packet → Option Failure → Event
  will_sent : ℕ → Packet → Event
  client_expired : ℕ → Event
  retained_expired : Bytes → Event
  handled_inline : Subscription → Packet → Event

-- `Server`, with the heap of clients, the time and the events so far, the last one first.
pub record World : Type 0 where
  pub heap : ℕ → Client
  pub clients : Map Bytes ℕ
  pub topics : TopicsIndex
  pub info : Info
  pub will_delayed : Map Bytes Packet
  pub now : ℤ
  pub events : List Event

-- What does not change: the options, the hooks, which see the state and the client at hand, and
-- how a connection takes some bytes.
pub record Env : Type 0 where
  pub capabilities : Capabilities
  pub hooks : List (Hook World (World × ℕ))
  pub network : World → ℕ → Bytes → Option Failure

-- an `error` and the state
abbrev pub Action : Type 0
Action = World → Option Failure × World

-- `if err != nil { return err }`, then the rest
infixl 5 ◌>>◌
abbrev pub ◌>>◌ : Option Failure × World → Action → Option Failure × World
(none, w) >> k = k w
(some e, w) >> k = (some e, w)

-- changes of the state
abbrev pub update_client : ℕ → (Client → Client) → World → World
update_client cl f w = record w { heap = λ r. if r == cl then f (w.heap r) else w.heap r }

abbrev pub with_inflight : ℕ → (Inflight → Inflight) → World → World
with_inflight cl f w = update_client cl (λ c. record c { inflight = f c.inflight }) w

abbrev pub count : (Info → Info) → World → World
count f w = record w { info = f w.info }

abbrev pub notify : Event → World → World
notify e w = record w { events = e ∷ w.events }
