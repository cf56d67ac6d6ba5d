-- ===== src/Server/Attaching/Refusal.antt =====
-- A client that no hook authenticates.
use mqtt_protocol_v.Common.{ℕ, ◌≡◌, refl, ◌∙◌, Bool, false, Option, none, some, if_both}
use mqtt_protocol_v.Common.Equality.{Bytes}
use mqtt_protocol_v.Packets.Codes.{Code}
use mqtt_protocol_v.Packets.Packet.{Packet}
use mqtt_protocol_v.Packets.Properties.{Properties, no_properties}
use mqtt_protocol_v.Server.Failures.{Failure, is_success}
use mqtt_protocol_v.Server.Hooks.{on_connect_authenticate}
use mqtt_protocol_v.Server.State.{World, Client, Env, ◌>>◌, update_client}
use mqtt_protocol_v.Server.Writing.{write_packet, stop}
use mqtt_protocol_v.Server.Writing.Effects.{
  write_packet-Leaves, departures, write_packet-departures,
}
use mqtt_protocol_v.Server.Connecting.{send_connack, parse_connect, bounded}
use mqtt_protocol_v.Server.Attaching.{
  Inbox, turn_away, authenticate, greet, examine, let_in, attach_client,
}

-- What holds of a state for as long as packets are written to the client, and the client changes.
module _ (env : Env) (cl : ℕ) (P : World → Type 0)
    (writes : (pk : Packet) (w : World) → P w → P (write_packet env cl pk w).1)
    (changes : (f : Client → Client) (w : World) → P w → P (update_client cl f w)) where
  send_connack-P :
      (code : Code) (present : Bool) (properties : Properties) (w : World)
      → P w
      → P (send_connack env cl code present properties w).1
  unfolding send_connack
  send_connack-P code present properties w p =
      if_both (λ (r : Option Failure × World). P r.1) _ (writes _ w p)
        (writes _ (update_client cl (bounded env) w) (changes (bounded env) w p))

  turned-P :
      (answer : Option Failure × World) (e : Option Failure)
      → P answer.1
      → P (answer >> (λ w'. (e, w'))).1
  turned-P (none, v) e p = p
  turned-P (some f, v) e p = p

  turn_away-P : (code : Code) (w : World) → P w → P (turn_away env cl code w).1
  unfolding turn_away
  turn_away-P code w p = turned-P _ _ (send_connack-P code false no_properties w p)

  module _ (pk : Packet) (inbox : Inbox)
      (refused : (w : World) → on_connect_authenticate env.hooks (w, cl) pk ≡ false) where
    greet-P : (e : Option Failure) (w : World) → P w → P (greet env cl pk inbox e w).1
    unfolding greet authenticate
    greet-P (some e) w p = p
    greet-P none w p = rw (refused w) (turn_away-P _ w p)

    examine-P : (code : Code) (w : World) → P w → P (examine env cl pk inbox code w).1
    unfolding examine
    examine-P code w p =
        if_both (λ (r : Option Failure × World). P r.1) (is_success code) (greet-P _ w p)
          (turn_away-P code w p)

    let_in-P : (w : World) → P w → P (let_in env cl pk inbox w).1
    unfolding let_in
    let_in-P w p =
        if_both (λ (r : Option Failure × World). P r.1) _ (send_connack-P _ false no_properties w p)
          (examine-P _ w p)

    attach_client-P :
        (generated listener : Bytes) (w : World)
        → P w
        → P (attach_client env generated listener cl pk inbox w).1
    unfolding attach_client
    attach_client-P generated listener w p =
        let parsed = update_client cl (parse_connect env generated listener pk) w in
        let w' = (let_in env cl pk inbox parsed).1 in
        changes (stop none w'.now) w'
          (let_in-P parsed (changes (parse_connect env generated listener pk) w p))

-- the broker knows the same clients, and its index is the same
abbrev pub IsOutside : World → World → Type 0
IsOutside w w' = (w'.clients ≡ w.clients) × (w'.topics ≡ w.topics)

-- A client that no hook authenticates is not let in, whatever it sends: the broker knows the same
-- clients as before, and has the same subscriptions and retained messages.
pub attach_client-IsOutside :
    (env : Env) (generated listener : Bytes) (cl : ℕ) (pk : Packet) (inbox : Inbox) (w : World)
    → ((v : World) → on_connect_authenticate env.hooks (v, cl) pk ≡ false)
    → IsOutside w (attach_client env generated listener cl pk inbox w).1
attach_client-IsOutside env generated listener cl pk inbox w refused =
    attach_client-P env cl (IsOutside w)
      (λ out v (clients, topics).
        let (heap, clients', topics', info) = write_packet-Leaves env cl out v in
        (clients' ∙ clients, topics' ∙ topics))
      (λ f v same. same) pk inbox refused generated listener w (refl, refl)

-- A client that no hook authenticates leaves without a call of `OnDisconnect`.
pub attach_client-departures :
    (env : Env) (generated listener : Bytes) (cl : ℕ) (pk : Packet) (inbox : Inbox) (w : World)
    → ((v : World) → on_connect_authenticate env.hooks (v, cl) pk ≡ false)
    → departures (attach_client env generated listener cl pk inbox w).1.events ≡ departures w.events
attach_client-departures env generated listener cl pk inbox w refused =
    attach_client-P env cl (λ v. departures v.events ≡ departures w.events)
      (λ out v same. write_packet-departures env cl out v ∙ same) (λ f v same. same) pk inbox
      refused generated listener w refl
