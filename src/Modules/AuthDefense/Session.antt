-- ===== src/Modules/AuthDefense/Session.antt =====
-- AUTH packets and the authentication timeout of one client.
use Prim.Native.Nat.{min}
use mqtt_protocol_v.Common.{
  ℕ, zero, suc, ◌+◌, ◌-◌, ◌≡◌, refl, true, false, Option, none, some, arith, ltb, if◌then◌else◌, ap,
}
use mqtt_protocol_v.Common.Equality.{Bytes, bytes_eq_iff, bytes_instance}
use mqtt_protocol_v.Common.Map
use mqtt_protocol_v.Common.Map.{lookup-insert, lookup-delete}
use mqtt_protocol_v.Modules.AuthDefense.{
  AuthConfig, ClientState, DefenseHook, on_connect, on_disconnect, on_timeout, on_auth_packet,
  on_session_established,
}

-- How many of `n` AUTH packets of a client pass, one after the other.
unfoldable pub auth_passes : DefenseHook → Bytes → ℕ → ℕ
auth_passes h id zero = 0
auth_passes h id (suc n) =
    (if (on_auth_packet h id).1 then 1 else 0) + auth_passes (on_auth_packet h id).0 id n

abbrev pub state_of : DefenseHook → Bytes → Option ClientState
state_of h id = Map.lookup id h.clients

auth_step :
    (h : DefenseHook) (id : Bytes) (st : ClientState)
    → state_of h id ≡ some st
    → (state_of (on_auth_packet h id).0 id ≡ some (record st { auth_count = st.auth_count + 1 }))
      × ((on_auth_packet h id).0.config ≡ h.config)
      × ((on_auth_packet h id).1
          ≡ (if ltb h.config.max_auth_per_conn (st.auth_count + 1) then false else true))
unfolding on_auth_packet
auth_step h id st e = ground (
  arith,
  lookup-insert id id (record st { auth_count = st.auth_count + 1 }) h.clients,
  bytes_eq_iff id id,
)

passes_from :
    (n : ℕ) (h : DefenseHook) (id : Bytes) (st : ClientState)
    → state_of h id ≡ some st
    → auth_passes h id n ≡ min n (h.config.max_auth_per_conn - st.auth_count)
unfolding auth_passes
passes_from zero h id st e = omega arith
passes_from (suc n) h id st e =
    let (kept, same, passed) = auth_step h id st e in
    ground (
      arith,
      passes_from n (on_auth_packet h id).0 id (record st { auth_count = st.auth_count + 1 }) kept,
    )

entered_state :
    (h : DefenseHook) (id ip : Bytes) (now : ℕ)
    → (on_connect h id ip now).1 ≡ none
    → state_of (on_connect h id ip now).0 id
      ≡ some (record { auth_count = 0; timer = true; is_authed = false })
unfolding on_connect
entered_state h id ip now e = ground (
  arith,
  lookup-insert id id (record { auth_count = 0; timer = true; is_authed = false }) h.clients,
  bytes_eq_iff id id,
)

entered_config :
    (h : DefenseHook) (id ip : Bytes) (now : ℕ) → (on_connect h id ip now).0.config ≡ h.config
unfolding on_connect
entered_config h id ip now = ground arith

-- Of the AUTH packets that a client sends after a connection that was let in, exactly the first
-- `MaxAuthPerConn` pass.
pub auth_passes-on_connect :
    (h : DefenseHook) (id ip : Bytes) (now n : ℕ)
    → (on_connect h id ip now).1 ≡ none
    → auth_passes (on_connect h id ip now).0 id n ≡ min n h.config.max_auth_per_conn
auth_passes-on_connect h id ip now n e = omega (
  arith,
  passes_from n (on_connect h id ip now).0 id _ (entered_state h id ip now e),
  ap (λ (c : AuthConfig). c.max_auth_per_conn) (entered_config h id ip now),
)

unknown_step :
    (h : DefenseHook) (id : Bytes)
    → state_of h id ≡ none
    → ((on_auth_packet h id).1 ≡ false) × (state_of (on_auth_packet h id).0 id ≡ none)
unfolding on_auth_packet
unknown_step h id e = ground arith

gone : (h : DefenseHook) (id : Bytes) → state_of (on_disconnect h id) id ≡ none
unfolding on_disconnect
gone h id = ground (arith, lookup-delete id id h.clients, bytes_eq_iff id id)

passes_unknown :
    (h : DefenseHook) (id : Bytes) (n : ℕ) → state_of h id ≡ none → auth_passes h id n ≡ 0
unfolding auth_passes
passes_unknown h id zero e = refl
passes_unknown h id (suc n) e =
    let (refused, still) = unknown_step h id e in
    ground (arith, passes_unknown (on_auth_packet h id).0 id n still)

-- Once a client id has been disconnected, no AUTH packet under it passes.
pub auth_passes-on_disconnect :
    (h : DefenseHook) (id : Bytes) (n : ℕ) → auth_passes (on_disconnect h id) id n ≡ 0
auth_passes-on_disconnect h id n = passes_unknown (on_disconnect h id) id n (gone h id)

-- The authentication timeout never stops a client, and counts no violation, once its session is
-- established; before that it stops a client whose connection was let in.
pub timeout_exact :
    (h : DefenseHook) (id ip : Bytes) (now : ℕ)
    → (on_connect h id ip now).1 ≡ none
    → let h' = (on_connect h id ip now).0 in
      ((on_timeout h' id).1 ≡ true)
      × (on_timeout (on_session_established h' id) id ≡ (on_session_established h' id, false))
unfolding on_timeout on_session_established
timeout_exact h id ip now e = ground (
  arith,
  entered_state h id ip now e,
  lookup-insert id id (record { auth_count = 0; timer = false; is_authed = true })
      (on_connect h id ip now).0.clients,
  bytes_eq_iff id id,
)
