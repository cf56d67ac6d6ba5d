-- ===== src/Modules/AuthDefense.antt =====
-- broker/modules/defense/auth_defense.go: limits on connections and AUTH packets.
pub mod Slots
pub mod Rate
pub mod Session
pub mod Lockout
mod Runs
use mqtt_protocol_v.Common.{
  ℕ, zero, suc, ◌+◌, ◌*◌, ◌^◌, Bool, true, false, Option, none, some, List, [], ◌∷◌, ltb, not,
  if◌then◌else◌,
}
use mqtt_protocol_v.Common.Equality.{Bytes, bytes_instance}
use mqtt_protocol_v.Common.Int.{ℤ, pos, incr, decr, ltb_ℤ}
use mqtt_protocol_v.Common.Map
use mqtt_protocol_v.Common.Map.{Map}
use mqtt_protocol_v.Modules.Config.{InitArg, nil, wrong_type, given, positive_or}

-- `time.Second`; times and durations are in nanoseconds
abbrev pub second : ℕ
second = 1_000_000_000

-- `AuthDefenseConfig` as the caller gives it
pub record RawConfig : Type 0 where
  pub max_conn_per_sec : ℤ
  pub max_concurrent_conn : ℤ
  pub max_auth_per_conn : ℤ
  pub conn_timeout : ℤ

-- the configuration after `Init`
pub record AuthConfig : Type 0 where
  pub max_conn_per_sec : ℕ
  pub max_concurrent_conn : ℕ
  pub max_auth_per_conn : ℕ
  pub conn_timeout : ℕ

abbrev pub default_config : AuthConfig
default_config = record {
  max_conn_per_sec = 5;
  max_concurrent_conn = 20;
  max_auth_per_conn = 2;
  conn_timeout = 30 * second;
}

-- `AuthDefenseHook.Init`: `none` is `ErrInvalidConfigType`.
unfoldable pub init : InitArg RawConfig → Option AuthConfig
unfolding positive_or
init nil = some default_config
init wrong_type = none
init (given c) = some (record {
  max_conn_per_sec = positive_or c.max_conn_per_sec 5;
  max_concurrent_conn = positive_or c.max_concurrent_conn 20;
  max_auth_per_conn = positive_or c.max_auth_per_conn 2;
  conn_timeout = positive_or c.conn_timeout (30 * second);
})

-- `ipTracker`
pub record IpTracker : Type 0 where
  pub count : ℕ
  pub reset_time : ℕ

-- `clientState`; `timer` says whether the timeout is still to fire.
pub record ClientState : Type 0 where
  pub auth_count : ℕ
  pub timer : Bool
  pub is_authed : Bool

-- `AuthDefenseHook`. The counters of an attack stay far below 2 ^ 31; wrapping is left out.
pub record DefenseHook : Type 0 where
  pub config : AuthConfig
  pub active_connections : ℤ
  pub ip_rates : Map Bytes IpTracker
  pub clients : Map Bytes ClientState
  pub auth_packets_received : ℕ
  pub auth_packets_blocked : ℕ
  pub connections_rejected : ℕ
  pub auth_violation_count : ℕ

abbrev pub fresh : AuthConfig → DefenseHook
fresh c = record {
  config = c;
  active_connections = pos 0;
  ip_rates = [];
  clients = [];
  auth_packets_received = 0;
  auth_packets_blocked = 0;
  connections_rejected = 0;
  auth_violation_count = 0;
}

-- the errors of `OnConnect`
pub data Refusal : Type 0 where
  too_busy rate_limit : Refusal

-- `recordConnViolation`
record_conn_violation : DefenseHook → DefenseHook
record_conn_violation h = record h { connections_rejected = h.connections_rejected + 1 }

-- `recordAuthViolation`
record_auth_violation : DefenseHook → DefenseHook
record_auth_violation h = record h {
  auth_packets_blocked = h.auth_packets_blocked + 1;
  auth_violation_count = h.auth_violation_count + 1;
}

-- `LoadOrStore` of the tracker, and its update: the window is started anew once it has passed.
count_attempt : Option IpTracker → ℕ → IpTracker
count_attempt none now = record { count = 1; reset_time = now + second }
count_attempt (some t) now =
    if ltb t.reset_time now
    then record { count = 1; reset_time = now + second }
    else record { count = t.count + 1; reset_time = t.reset_time }

-- steps 2 and 3 of `OnConnect`, in the slot that step 1 has taken
admit : DefenseHook → Bytes → Bytes → ℕ → DefenseHook × Option Refusal
unfolding count_attempt record_conn_violation
admit h id ip now =
    let tracker = count_attempt (Map.lookup ip h.ip_rates) now in
    let h' = record h { ip_rates = Map.insert ip tracker h.ip_rates } in
    if ltb h.config.max_conn_per_sec tracker.count
    then (
      record_conn_violation (record h' { active_connections = decr h.active_connections }),
      some rate_limit,
    )
    else (
      record h' {
        clients =
            Map.insert id (record { auth_count = 0; timer = true; is_authed = false }) h.clients;
      },
      none,
    )

-- `OnConnect`, by a client id and the address that `getIP` makes of its remote address, at a time:
-- the hook afterwards and the error.
unfoldable pub on_connect : DefenseHook → Bytes → Bytes → ℕ → DefenseHook × Option Refusal
unfolding admit record_conn_violation
on_connect h id ip now =
    let current = incr h.active_connections in
    if ltb_ℤ (pos h.config.max_concurrent_conn) current
    then (record_conn_violation (record h { active_connections = decr current }), some too_busy)
    else admit (record h { active_connections = current }) id ip now

-- the callback of the timer that `OnConnect` starts: the hook afterwards, and whether the client
-- is stopped
unfoldable pub on_timeout : DefenseHook → Bytes → DefenseHook × Bool
unfolding record_auth_violation
on_timeout h id = elim (Map.lookup id h.clients) [
  | none ↦ (h, false)
  | some st ↦ if st.is_authed then (h, false) else (record_auth_violation h, true)
]

-- `OnDisconnect`
unfoldable pub on_disconnect : DefenseHook → Bytes → DefenseHook
on_disconnect h id = record h {
  active_connections = decr h.active_connections;
  clients = Map.delete id h.clients;
}

-- the client's state is shared: the new count is seen by every later look-up
count_auth : DefenseHook → Bytes → ClientState → DefenseHook × Bool
unfolding record_auth_violation
count_auth h id st =
    let count = st.auth_count + 1 in
    let h' = record h { clients = Map.insert id (record st { auth_count = count }) h.clients } in
    if ltb h.config.max_auth_per_conn count then (record_auth_violation h', false) else (h', true)

-- `OnAuthPacket`: the hook afterwards, and whether the packet passes (`false` is `ErrRejectPacket`).
unfoldable pub on_auth_packet : DefenseHook → Bytes → DefenseHook × Bool
unfolding count_auth
on_auth_packet h id =
    let h' = record h { auth_packets_received = h.auth_packets_received + 1 } in
    elim (Map.lookup id h.clients) [
      | none ↦ (record h' { auth_packets_blocked = h.auth_packets_blocked + 1 }, false)
      | some st ↦ count_auth h' id st
    ]

-- `OnSessionEstablished`
unfoldable pub on_session_established : DefenseHook → Bytes → DefenseHook
on_session_established h id = elim (Map.lookup id h.clients) [
  | none ↦ h
  | some st ↦ record h {
    clients = Map.insert id (record st { is_authed = true; timer = false }) h.clients;
  }
]
