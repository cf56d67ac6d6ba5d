-- ===== src/Server/Runs.antt =====
-- Runs of the broker's handlers, and their theorems at concrete inputs.
use mqtt_protocol_v.Common.{
  ℕ, ◌≡◌, ◌↔◌, inl, ◌==◌, if◌then◌else◌, refl, arith, true, false, none, [], ◌∷◌,
}
use mqtt_protocol_v.Common.Equality.{codes, bytes_eq, bytes_instance}
use mqtt_protocol_v.Common.Int.{pos}
use mqtt_protocol_v.Common.Map
use mqtt_protocol_v.Packets.Types
use mqtt_protocol_v.Packets.FixedHeader.{blank}
use mqtt_protocol_v.Packets.Packet.{Packet, no_packet}
use mqtt_protocol_v.Packets.Properties.{no_properties}
use mqtt_protocol_v.Session.Aliases.{new_inbound, new_outbound}
use mqtt_protocol_v.Session.Inflight.{Inflight, new_inflights, get}
use mqtt_protocol_v.Topics.Index.{new_index}
use mqtt_protocol_v.Server.Failures.{Failure, is_success}
use mqtt_protocol_v.Server.Hooks.{Hook, on_acl_check, on_publish, on_connect_authenticate}
use mqtt_protocol_v.Server.State.{Capabilities, Client, Info, World, Env}
use mqtt_protocol_v.Server.Writing.Effects.{Silent}
use mqtt_protocol_v.Server.Wills.{no_will}
use mqtt_protocol_v.Server.Hooks.Decisions.{
  Granted, on_acl_check-Granted, Outcome, on_publish-Outcome,
}
use mqtt_protocol_v.Server.Publishing.{pass_on, process_publish}
use mqtt_protocol_v.Server.Publishing.Once.{IsPending, pass_on-once}
use mqtt_protocol_v.Server.Quotas.{AreWithin, Answers}
use mqtt_protocol_v.Server.Quotas.Requests.{process_packet-AreWithin}
use mqtt_protocol_v.Server.Handling.{process_packet}
use mqtt_protocol_v.Packets.Packet.{Subscription, no_subscription}
use mqtt_protocol_v.Packets.Packet.{no_connect}
use mqtt_protocol_v.Packets.Packet.Connect.{connect_validate}
use mqtt_protocol_v.Server.Connecting.{validate_connect, supported, parse_connect}
use mqtt_protocol_v.Modules.AuthDefense
use mqtt_protocol_v.Modules.AuthDefense.{AuthConfig, too_busy, second, fresh}
use mqtt_protocol_v.Modules.AuthDefense.Lockout.{
  Attempt, is_examined, called, entered, after_attempts, failed_logins_lock_out,
}
use mqtt_protocol_v.Server.Sessions.{inherit_client_session}
use mqtt_protocol_v.Server.Sessions.Takeover.{IsResumed, inherit_client_session-IsResumed}
use mqtt_protocol_v.Server.Attaching.{Inbox, attach_client}
use mqtt_protocol_v.Server.Attaching.Refusal.{IsOutside, attach_client-IsOutside}
use mqtt_protocol_v.Common.{some, length}
use mqtt_protocol_v.Common.Equality.{Bytes}
use mqtt_protocol_v.Common.Int.{ℤ}
use mqtt_protocol_v.Session.Inflight
use mqtt_protocol_v.Packets.Packet.Copying.{copy}
use mqtt_protocol_v.Server.Storing.{
  Message, to_packet, badger_message, bolt_message, bolt_retained, surviving, to_packet-stored,
}
use mqtt_protocol_v.Server.Loading.{load_inflight}

-- a hook that lets every client in, grants every topic and changes nothing
abbrev allow_all : Hook World (World × ℕ)
allow_all = record {
  provides = λ m. true;
  connect_authenticate = λ c pk. true;
  acl_check = λ c topic write. true;
  connect = λ c pk. none;
  packet_read = λ c pk. (pk, none);
  auth_packet = λ c pk. (pk, none);
  packet_encode = λ c pk. pk;
  subscribe = λ c pk. pk;
  unsubscribe = λ c pk. pk;
  select_subscribers = λ w subs pk. subs;
  publish = λ c pk. (pk, none);
  will = λ c will. (will, none);
}

abbrev capabilities : Capabilities
capabilities = record {
  maximum_message_expiry_interval = 86400;
  maximum_clients = 100;
  maximum_client_writes_pending = 8;
  maximum_session_expiry_interval = 1000;
  maximum_packet_id = 9;
  receive_maximum = 4;
  topic_alias_maximum = 4;
  minimum_protocol_version = 3;
  maximum_inflight = 8;
  maximum_qos = 2;
  retain_available = 1;
  obscure_not_authorized = false;
  passive_client_disconnect = false;
  always_return_response_info = false;
  no_inherited_properties_on_ack = false;
}

-- a broker whose connections take every byte
abbrev broker : Env
broker = record {
  capabilities = capabilities;
  hooks = allow_all ∷ [];
  network = λ w cl bytes. none;
}

-- a broker without a hook
abbrev bare : Env
bare = record broker { hooks = [] }

abbrev four : Inflight
four = record new_inflights {
  receive_quota = 4;
  send_quota = 4;
  maximum_receive_quota = 4;
  maximum_send_quota = 4;
}

abbrev someone : Client
someone = record {
  id = codes "a";
  inline = false;
  listener = [];
  has_conn = true;
  is_open = true;
  ended = false;
  stop_cause = none;
  disconnected = pos 0;
  taken_over = false;
  username = [];
  keepalive = 0;
  server_keepalive = false;
  protocol_version = 5;
  clean = false;
  props = no_properties;
  will = no_will;
  inflight = four;
  packet_id = 0;
  inbound = new_inbound 4;
  outbound_aliases = new_outbound 4;
  subscriptions = [];
  outbound = [];
  outbound_qty = 0;
}

abbrev nothing_counted : Info
nothing_counted = record {
  bytes_sent = 0;
  packets_sent = 0;
  messages_sent = 0;
  messages_dropped = 0;
  inflight = pos 0;
  inflight_dropped = 0;
  retained = 0;
  packets_received = 0;
  messages_received = 0;
  clients_connected = 0;
  clients_maximum = 0;
  subscriptions = pos 0;
}

abbrev start : World
start = record {
  heap = λ r. someone;
  clients = (codes "a", 1) ∷ [];
  topics = new_index;
  info = nothing_counted;
  will_delayed = [];
  now = pos 100;
  events = [];
}

abbrev exactly_once : Packet
exactly_once = record no_packet {
  fixed_header = record blank { packet_type = Types.publish; qos = 2 };
  topic_name = codes "t";
  packet_id = 7;
  payload = codes "x";
}

on_acl_check-Granted_example :
    (on_acl_check (allow_all ∷ []) (start, 1) (codes "t") true ≡ true)
    ↔ Granted (allow_all ∷ []) (start, 1) (codes "t") true
on_acl_check-Granted_example = on_acl_check-Granted (allow_all ∷ []) (start, 1) (codes "t") true

on_publish-Outcome_example :
    Outcome exactly_once
      (allow_all ∷ [])
      (start, 1)
      exactly_once
      (on_publish (allow_all ∷ []) (start, 1) exactly_once)
on_publish-Outcome_example = on_publish-Outcome (allow_all ∷ []) (start, 1) exactly_once

-- a client whose flow for the id 7 has begun
abbrev waiting : World
waiting = record start {
  heap = λ r. record someone {
    inflight = record four {
      internal =
          (
            7,
            record no_packet {
              fixed_header = record blank { packet_type = Types.pubrec };
              packet_id = 7;
            },
          )
          ∷ [];
    };
  };
}

pending : IsPending 7 (waiting.heap 1).inflight
unfolding get Map.lookup
pending = (_, refl, refl)

pass_on-once_example :
    let w = (pass_on broker 1 exactly_once start).1 in
    Silent w (process_publish broker 1 exactly_once w).1
pass_on-once_example = pass_on-once broker 1 exactly_once exactly_once start refl refl refl

start-AreWithin : AreWithin start
unfolding AreWithin
start-AreWithin r = (omega arith, omega arith)

process_packet-AreWithin_example : Answers (process_packet broker 1 exactly_once start)
process_packet-AreWithin_example =
    process_packet-AreWithin broker 1 exactly_once start start-AreWithin

nobody : (v : World) → on_connect_authenticate bare.hooks (v, 1) exactly_once ≡ false
unfolding on_connect_authenticate
nobody v = refl

abbrev inbox : Inbox
inbox = record { packets = exactly_once ∷ []; ending = Failure.other 1 }

attach_client-IsOutside_example :
    IsOutside start (attach_client bare [] [] 1 exactly_once inbox start).1
attach_client-IsOutside_example =
    attach_client-IsOutside bare [] [] 1 exactly_once inbox start nobody

abbrev wanted : Subscription
wanted = record no_subscription { filter = codes "t"; qos = 1 }

-- a client with a message in flight and a subscription, and one that comes with the same id
abbrev two_connections : World
two_connections = record start {
  heap = λ r.
      if r == 1
      then record someone {
        inflight = record four { internal = (7, record no_packet { packet_id = 7 }) ∷ [] };
        subscriptions = (codes "t", wanted) ∷ [];
      }
      else someone;
}

found : Map.lookup (codes "a") two_connections.clients ≡ some 1
unfolding Map.lookup bytes_eq
found = refl

inherit_client_session-IsResumed_example :
    IsResumed 2
      (codes "t")
      (two_connections.heap 1)
      (inherit_client_session broker exactly_once 2 two_connections)
inherit_client_session-IsResumed_example =
    inherit_client_session-IsResumed broker exactly_once 2 1 two_connections (codes "t") found refl
      refl refl (inl refl)

to_packet-stored_example :
    (to_packet (badger_message (codes "a") exactly_once (pos 100)) ≡ surviving exactly_once 7)
    × (to_packet (bolt_message (codes "a") exactly_once (pos 100)) ≡ surviving exactly_once 0)
    × (to_packet (bolt_retained (codes "a") exactly_once) ≡ surviving exactly_once 0)
to_packet-stored_example = to_packet-stored (codes "a") exactly_once (pos 100)

-- two messages in flight: both come back from Badger, and one of them from Bolt
abbrev kept : (Bytes → Packet → ℤ → Message) → ℕ
kept stored =
    let messages =
      stored (codes "a") exactly_once (pos 100)
      ∷ stored (codes "a") (record exactly_once { packet_id = 8 }) (pos 101)
      ∷ [] in
    length ((load_inflight messages start).heap 1).inflight.internal

badger_keeps : kept badger_message ≡ 2
unfolding load_inflight to_packet badger_message Inflight.set Map.lookup Map.insert bytes_eq copy
badger_keeps = refl

bolt_keeps : kept bolt_message ≡ 1
unfolding load_inflight to_packet bolt_message Inflight.set Map.lookup Map.insert bytes_eq copy
bolt_keeps = refl

-- a valid CONNECT, and a hook with one slot
abbrev login : Attempt
login = record {
  client = 1;
  packet = record no_packet {
    protocol_version = 4;
    connect = record no_connect {
      protocol_name = codes "MQTT";
      client_identifier = codes "x";
      clean = true;
    };
  };
  inbox = inbox;
  listener = [];
  generated = [];
  ip = codes "10.0.0.1";
  now = 5;
}

abbrev one_slot : AuthConfig
one_slot = record {
  max_conn_per_sec = 2;
  max_concurrent_conn = 1;
  max_auth_per_conn = 2;
  conn_timeout = second;
}

entered-login : entered bare (login ∷ []) (fresh one_slot) start ≡ 1
unfolding entered called is_examined validate_connect supported parse_connect connect_validate
    AuthDefense.on_connect Map.lookup is_success bytes_eq
entered-login = refl

failed_logins_lock_out_example :
    (AuthDefense.on_connect
      (after_attempts bare (login ∷ []) (fresh one_slot) start)
      (codes "y")
      (codes "10.0.0.2")
      6).1
    ≡ some too_busy
unfolding on_connect_authenticate
failed_logins_lock_out_example =
    failed_logins_lock_out bare one_slot (login ∷ []) start (codes "y") (codes "10.0.0.2") 6
      (λ v cl pk. refl) entered-login
