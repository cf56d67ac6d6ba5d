-- ===== src/Server/Writing/Effects.antt =====
-- What writing a packet and disconnecting a client leave as they are.
use mqtt_protocol_v.Common.{
  ℕ, ◌+◌, List, [], ◌∷◌, ◌≡◌, refl, not, ◌&&◌, Option, none, some, ◌==◌, ltb, length, ◌%◌, ◌^◌,
  Bool-cases, Option-cases, inl, inr, if_both, ◌∙◌,
}
use mqtt_protocol_v.Common.Equality.{Bytes}
use mqtt_protocol_v.Common.Int.{ℤ}
use mqtt_protocol_v.Packets.Codes.{Code}
use mqtt_protocol_v.Packets.Packet.{Packet}
use mqtt_protocol_v.Server.Failures.{Failure, code_error}
use mqtt_protocol_v.Server.Hooks.{on_packet_encode}
use mqtt_protocol_v.Server.State.{World, Client, Env, Event, disconnected, update_client}
use mqtt_protocol_v.Server.Writing.{
  sent, transmit, write_packet, outgoing, encode_packet, stop, disconnect_client, disconnect_packet,
}
use mqtt_protocol_v.Common.{ap}

-- the clients, their map, the index and the number of messages under way are as before
abbrev pub Leaves : World → World → Type 0
Leaves w w' =
    (w'.heap ≡ w.heap)
    × (w'.clients ≡ w.clients)
    × (w'.topics ≡ w.topics)
    × (w'.info.inflight ≡ w.info.inflight)

transmit-Leaves :
    (env : Env) (cl : ℕ) (pk : Packet) (answer : Option Failure × Bytes) (w : World)
    → Leaves w (transmit env cl pk answer w).1
unfolding transmit sent
transmit-Leaves env cl pk (some e, bytes) w = (refl, refl, refl, refl)
transmit-Leaves env cl pk (none, bytes) w =
    elim (Bool-cases (ltb 0 pk.mods.max_size && ltb pk.mods.max_size (length bytes % 2 ^ 32))) [
      | inl large ↦ rw large (refl, refl, refl, refl)
      | inr small ↦ elim (Option-cases (env.network w cl bytes)) [
        | inl taken ↦ rw (small, taken) (refl, refl, refl, refl)
        | inr (e, failed) ↦ rw (small, failed) (refl, refl, refl, refl)
      ]
    ]

pub write_packet-Leaves :
    (env : Env) (cl : ℕ) (pk : Packet) (w : World) → Leaves w (write_packet env cl pk w).1
unfolding write_packet
write_packet-Leaves env cl pk w = elim (Bool-cases (not (w.heap cl).is_open)) [
  | inl closed ↦ rw closed (refl, refl, refl, refl)
  | inr ready ↦ elim (Bool-cases (not (w.heap cl).has_conn)) [
    | inl bare ↦ rw (ready, bare) (refl, refl, refl, refl)
    | inr connected ↦
        let out = on_packet_encode env.hooks (w, cl) (outgoing env w cl pk) in
        rw (ready, connected) (transmit-Leaves env cl out (encode_packet out) w)
  ]
]

-- how often `OnDisconnect` has been called
unfoldable pub departures : List Event → ℕ
departures [] = 0
departures (disconnected cl e expire ∷ events) = 1 + departures events
departures (event ∷ events) = departures events

transmit-departures :
    (env : Env) (cl : ℕ) (pk : Packet) (answer : Option Failure × Bytes) (w : World)
    → departures (transmit env cl pk answer w).1.events ≡ departures w.events
unfolding transmit sent departures
transmit-departures env cl pk (some e, bytes) w = refl
transmit-departures env cl pk (none, bytes) w =
    elim (Bool-cases (ltb 0 pk.mods.max_size && ltb pk.mods.max_size (length bytes % 2 ^ 32))) [
      | inl large ↦ rw large refl
      | inr small ↦ elim (Option-cases (env.network w cl bytes)) [
        | inl taken ↦ rw (small, taken) refl
        | inr (e, failed) ↦ rw (small, failed) refl
      ]
    ]

pub write_packet-departures :
    (env : Env) (cl : ℕ) (pk : Packet) (w : World)
    → departures (write_packet env cl pk w).1.events ≡ departures w.events
unfolding write_packet
write_packet-departures env cl pk w = elim (Bool-cases (not (w.heap cl).is_open)) [
  | inl closed ↦ rw closed refl
  | inr ready ↦ elim (Bool-cases (not (w.heap cl).has_conn)) [
    | inl bare ↦ rw (ready, bare) refl
    | inr connected ↦
        let out = on_packet_encode env.hooks (w, cl) (outgoing env w cl pk) in
        rw (ready, connected) (transmit-departures env cl out (encode_packet out) w)
  ]
]

-- No message has gone on: the index, the queues and the in-flight stores are as before.
abbrev pub Silent : World → World → Type 0
Silent w w' =
    (w'.topics ≡ w.topics)
    × ((r : ℕ)
        → ((w'.heap r).outbound ≡ (w.heap r).outbound)
          × ((w'.heap r).inflight ≡ (w.heap r).inflight))

pub Silent-refl : (w : World) → Silent w w
Silent-refl w = (refl, λ r. (refl, refl))

pub Leaves-Silent : (w w' : World) → Leaves w w' → Silent w w'
Leaves-Silent w w' (heap, clients, topics, info) = (topics, λ r. rw heap (refl, refl))

pub write_packet-Silent :
    (env : Env) (cl : ℕ) (pk : Packet) (w : World) → Silent w (write_packet env cl pk w).1
write_packet-Silent env cl pk w =
    Leaves-Silent w (write_packet env cl pk w).1 (write_packet-Leaves env cl pk w)

pub stop-keeps :
    (cause : Option Failure) (now : ℤ) (c : Client)
    → ((stop cause now c).outbound ≡ c.outbound)
      × ((stop cause now c).inflight ≡ c.inflight)
      × ((stop cause now c).inline ≡ c.inline)
unfolding stop
stop-keeps cause now c = elim (Bool-cases c.ended) [
  | inl over ↦ rw over (refl, refl, refl)
  | inr going ↦ rw going (refl, refl, refl)
]

stopped-Silent :
    (cl : ℕ) (cause : Option Failure) (now : ℤ) (w w' : World)
    → Silent w w'
    → Silent w (update_client cl (stop cause now) w')
stopped-Silent cl cause now w w' (topics, same) = (
  topics,
  λ r.
      let (outbound, inflight, inline) = stop-keeps cause now (w'.heap r) in
      elim (Bool-cases (r == cl)) [
        | inl here ↦ rw here (outbound ∙ (same r).0, inflight ∙ (same r).1)
        | inr apart ↦ rw apart (same r)
      ],
)

pub disconnect_client-Silent :
    (env : Env) (cl : ℕ) (code : Code) (w : World) → Silent w (disconnect_client env cl code w).1
unfolding disconnect_client
disconnect_client-Silent env cl code w =
    let (e, w') = write_packet env cl (disconnect_packet code) w in
    let written : Silent w w' = write_packet-Silent env cl (disconnect_packet code) w in
    if_both (λ (r : Option Failure × World). Silent w r.1)
      env.capabilities.passive_client_disconnect written
      (stopped-Silent cl (code_error code) w'.now w w' written)

-- what ending the connection of a client leaves as it is
pub disconnect_client-field {ℓ} :
    {A : Type ℓ} (F : Client → A)
    → ((cause : Option Failure) (now : ℤ) (c : Client) → F (stop cause now c) ≡ F c)
    → (env : Env) (cl : ℕ) (code : Code) (w : World) (r : ℕ)
    → F ((disconnect_client env cl code w).1.heap r) ≡ F (w.heap r)
unfolding disconnect_client
disconnect_client-field F keeps env cl code w r =
    let (e, w') = write_packet env cl (disconnect_packet code) w in
    let same : F (w'.heap r) ≡ F (w.heap r) =
      ap (λ (heap : ℕ → Client). F (heap r))
        (write_packet-Leaves env cl (disconnect_packet code) w).0 in
    if_both (λ (a : Option Failure × World). F (a.1.heap r) ≡ F (w.heap r))
      env.capabilities.passive_client_disconnect same
      (elim (Bool-cases (r == cl)) [
        | inl here ↦ rw here (keeps (code_error code) w'.now (w'.heap r) ∙ same)
        | inr apart ↦ rw apart same
      ])

pub stop-session :
    (cause : Option Failure) (now : ℤ) (c : Client)
    → ((stop cause now c).clean ≡ c.clean)
      × ((stop cause now c).protocol_version ≡ c.protocol_version)
      × ((stop cause now c).subscriptions ≡ c.subscriptions)
unfolding stop
stop-session cause now c =
    if_both
      (λ (d : Client).
        (d.clean ≡ c.clean)
        × (d.protocol_version ≡ c.protocol_version)
        × (d.subscriptions ≡ c.subscriptions))
      c.ended (refl, refl, refl) (refl, refl, refl)
