-- ===== src/Modules/AuthDefense/Lockout.antt =====
-- The slots of connections whose authentication fails: `attachClient` of broker/server.go with the
-- hook attached, as the first of those that provide `OnConnect`.
use mqtt_protocol_v.Common.{
  ℕ, zero, suc, ◌+◌, ◌-◌, ◌≡◌, refl, ◌∙◌, Bool, false, not, ◌&&◌, Option, none, some, List, [], ◌∷◌,
  leb, arith, if◌then◌else◌, Bool-cases, Option-cases, inl, inr,
}
use mqtt_protocol_v.Common.Equality.{Bytes}
use mqtt_protocol_v.Common.Int.{pos}
use mqtt_protocol_v.Packets.Packet.{Packet}
use mqtt_protocol_v.Server.Failures.{is_success}
use mqtt_protocol_v.Server.Hooks.{on_connect_authenticate}
use mqtt_protocol_v.Server.State.{World, Client, Env}
use mqtt_protocol_v.Server.Connecting.{parse_connect, validate_connect}
use mqtt_protocol_v.Server.Writing.Effects.{departures}
use mqtt_protocol_v.Server.Attaching.{Inbox, attach_client}
use mqtt_protocol_v.Server.Attaching.Refusal.{attach_client-departures}
use mqtt_protocol_v.Modules.AuthDefense.{
  AuthConfig, DefenseHook, Refusal, too_busy, fresh, on_connect, on_disconnect,
}
use mqtt_protocol_v.Modules.AuthDefense.Slots.{on_connect_slots, config-on_connect, busy}

-- A connection: the client, its CONNECT and what follows it, its address, and the time of
-- `OnConnect`.
pub record Attempt : Type 0 where
  pub client : ℕ
  pub packet : Packet
  pub inbox : Inbox
  pub listener : Bytes
  pub generated : Bytes
  pub ip : Bytes
  pub now : ℕ

-- the client with its CONNECT
pub parsed : Env → Attempt → World → Client
parsed env a w = parse_connect env a.generated a.listener a.packet (w.heap a.client)

-- whether `attachClient` comes to its call of `OnConnect`
unfoldable pub is_examined : Env → Attempt → World → Bool
unfolding parsed
is_examined env a w =
    not (leb env.capabilities.maximum_clients w.info.clients_connected)
    && is_success (validate_connect env (parsed env a w) a.packet)

-- a number of calls of `OnDisconnect`
pub hear : ℕ → Bytes → DefenseHook → DefenseHook
hear zero id h = h
hear (suc n) id h = on_disconnect (hear n id h) id

-- the state after the whole of `attachClient`
abbrev pub attached : Env → Attempt → World → World
attached env a w = (attach_client env a.generated a.listener a.client a.packet a.inbox w).1

-- The hook at its call of `OnConnect`, and the error; a connection that does not come to the call is
-- not let in either, and leaves the hook as it is.
unfoldable pub called : Env → Attempt → DefenseHook → World → DefenseHook × Option Refusal
unfolding parsed
called env a h w =
    if is_examined env a w then on_connect h (parsed env a w).id a.ip a.now else (h, some too_busy)

-- the hook after a connection: `OnConnect`, and as many calls of `OnDisconnect` as there have been
unfoldable pub after_attempt : Env → Attempt → DefenseHook → World → DefenseHook
unfolding hear parsed
after_attempt env a h w =
    hear (departures (attached env a w).events - departures w.events) (parsed env a w).id
      (called env a h w).0

-- the hook after some connections
unfoldable pub after_attempts : Env → List Attempt → DefenseHook → World → DefenseHook
after_attempts env [] h w = h
after_attempts env (a ∷ rest) h w =
    after_attempts env rest (after_attempt env a h w) (attached env a w)

-- how many of them `OnConnect` lets in
unfoldable pub entered : Env → List Attempt → DefenseHook → World → ℕ
entered env [] h w = 0
entered env (a ∷ rest) h w =
    (elim (called env a h w).1 [ none ↦ 1 | some e ↦ 0 ])
    + entered env rest (after_attempt env a h w) (attached env a w)

called_slots :
    (env : Env) (a : Attempt) (h : DefenseHook) (w : World) (n : ℕ)
    → h.active_connections ≡ pos n
    → ((called env a h w).0.active_connections
        ≡ pos (n + (elim (called env a h w).1 [ none ↦ 1 | some e ↦ 0 ])))
      × ((called env a h w).0.config ≡ h.config)
unfolding called
called_slots env a h w n count = elim (Bool-cases (is_examined env a w)) [
  | inr unseen ↦ rw unseen (ground arith, refl)
  | inl seen ↦
      let id = (parsed env a w).id in
      let slots = on_connect_slots h id a.ip a.now in
      let same = config-on_connect h id a.ip a.now in
      elim (Option-cases (on_connect h id a.ip a.now).1) [
        | inl let_in ↦ rw (seen, let_in) (ground arith, same)
        | inr (e, refused) ↦ rw (seen, refused) (ground arith, same)
      ]
]

module _ (env : Env)
    (nobody : (v : World) (cl : ℕ) (pk : Packet)
      → on_connect_authenticate env.hooks (v, cl) pk ≡ false) where
  after_attempt-called :
      (a : Attempt) (h : DefenseHook) (w : World) → after_attempt env a h w ≡ (called env a h w).0
  unfolding after_attempt hear
  after_attempt-called a h w =
      let same =
        attach_client-departures env a.generated a.listener a.client a.packet a.inbox w
          (λ v. nobody v a.client a.packet) in
      let none_left : departures (attached env a w).events - departures w.events ≡ 0 =
        omega (arith, same) in
      rw none_left refl

  after_attempts_slots :
      (attempts : List Attempt) (h : DefenseHook) (w : World) (n : ℕ)
      → h.active_connections ≡ pos n
      → ((after_attempts env attempts h w).active_connections ≡ pos (n + entered env attempts h w))
        × ((after_attempts env attempts h w).config ≡ h.config)
  unfolding after_attempts entered
  after_attempts_slots [] h w n count = (ground arith, refl)
  after_attempts_slots (a ∷ rest) h w n count =
      let (slots, same) = called_slots env a h w n count in
      let left = after_attempt-called a h w in
      let m : ℕ = n + (elim (called env a h w).1 [ none ↦ 1 | some e ↦ 0 ]) in
      let (onward, kept) =
        after_attempts_slots rest (after_attempt env a h w) (attached env a w) m (rw left slots) in
      (onward ∙ ground arith, kept ∙ rw left same)

-- Where no hook authenticates a client, the slots that `OnConnect` takes are not given back by the
-- end of `attachClient`: after any connections, as many of which `OnConnect` has let in as there
-- are slots, starting with none taken, it refuses every further connection as too busy. The hook is
-- called before others that provide `OnConnect`, and other connections do not come in between.
pub failed_logins_lock_out :
    (env : Env) (c : AuthConfig) (attempts : List Attempt) (w : World) (id ip : Bytes) (now : ℕ)
    → ((v : World) (cl : ℕ) (pk : Packet) → on_connect_authenticate env.hooks (v, cl) pk ≡ false)
    → entered env attempts (fresh c) w ≡ c.max_concurrent_conn
    → (on_connect (after_attempts env attempts (fresh c) w) id ip now).1 ≡ some too_busy
failed_logins_lock_out env c attempts w id ip now nobody full =
    let (slots, same) = after_attempts_slots env nobody attempts (fresh c) w 0 refl in
    busy (after_attempts env attempts (fresh c) w) id ip now (ground arith)
