-- ===== src/Server/Delivery/Spreading.antt =====
-- What the loops over subscribers and retained messages leave as it is in an in-flight store.
use mqtt_protocol_v.Common.{
  ℕ, ◌≡◌, Bool, true, ◌&&◌, ◌||◌, Option, none, some, List, [], ◌∷◌, ◌==◌, Bool-cases, inl, inr,
  if_both,
}
use mqtt_protocol_v.Common.Equality.{nat_eq, bytes_instance}
use mqtt_protocol_v.Common.Map
use mqtt_protocol_v.Common.Map.{has}
use mqtt_protocol_v.Packets.Packet.{Packet, Subscription}
use mqtt_protocol_v.Session.Inflight.{Inflight}
use mqtt_protocol_v.Topics.Stores.{Subscriptions, InlineSubscriptions}
use mqtt_protocol_v.Server.State.{World, Env}
use mqtt_protocol_v.Topics.Filters.{is_shared_filter}
use mqtt_protocol_v.Topics.Messages.{messages}
use mqtt_protocol_v.Server.Delivery.{dated, chosen}
use mqtt_protocol_v.Server.State.{notify, handled_inline}
use mqtt_protocol_v.Server.Delivery.{heard, send_to}
use mqtt_protocol_v.Server.Failures.{Failure}
use mqtt_protocol_v.Server.Delivery.{
  publish_to_client, send_to_clients, publish_to_subscribers, handle_inline, retain, retained_loop,
  publish_retained_to_client,
}
use mqtt_protocol_v.Server.Delivery.Keeping.{Stable, publish_to_client-Holds}

module _ {Q : Inflight → Type 0} {Free : ℕ → Type 0} (stable : Stable Q Free) (r : ℕ)
    (b : Bool) where
  abbrev Holds : World → Type 0
  Holds w = ((w.heap r).inline ≡ b) × Q (w.heap r).inflight

  handle_inline-Holds :
      (subs : InlineSubscriptions) (pk : Packet) (w : World)
      → Holds w
      → Holds (handle_inline subs pk w)
  unfolding handle_inline
  handle_inline-Holds [] pk w h = h
  handle_inline-Holds ((id, sub) ∷ subs) pk w h =
      handle_inline-Holds subs pk (notify (handled_inline sub pk) w) h

  send_to-Holds :
      (env : Env) (sub : Subscription) (pk : Packet) (o : Option ℕ) (w : World)
      → Holds w
      → Holds (send_to env sub pk o w)
  unfolding send_to
  send_to-Holds env sub pk none w h = h
  send_to-Holds env sub pk (some cl) w h = publish_to_client-Holds stable r b env cl sub pk w h

  send_to_clients-Holds :
      (env : Env) (subs : Subscriptions) (pk : Packet) (w : World)
      → Holds w
      → Holds (send_to_clients env subs pk w)
  unfolding send_to_clients
  send_to_clients-Holds env [] pk w h = h
  send_to_clients-Holds env ((id, sub) ∷ subs) pk w h =
      send_to_clients-Holds env subs pk (send_to env sub pk (Map.lookup id w.clients) w)
        (send_to-Holds env sub pk (Map.lookup id w.clients) w h)

  pub publish_to_subscribers-Holds :
      (env : Env) (pk : Packet) (w : World) → Holds w → Holds (publish_to_subscribers env pk w)
  unfolding publish_to_subscribers
  publish_to_subscribers-Holds env pk w h =
      let pk' = dated env w.now pk in
      let subs = chosen env w pk' in
      let heard = handle_inline subs.inline pk' w in
      if_both Holds pk.ignore h (
        send_to_clients-Holds env subs.subscriptions pk' heard
          (handle_inline-Holds subs.inline pk' w h))

  heard-Holds :
      (cl : ℕ) (pkv : Packet) (answer : Option Failure × World)
      → Holds answer.1
      → Holds (heard cl pkv answer)
  unfolding heard
  heard-Holds cl pkv (none, w) h = h
  heard-Holds cl pkv (some e, w) h = h

  retained_loop-Holds :
      (env : Env) (cl : ℕ) (sub : Subscription) (pks : List Packet) (w : World)
      → Holds w
      → Holds (retained_loop env cl sub pks w)
  unfolding retained_loop
  retained_loop-Holds env cl sub [] w h = h
  retained_loop-Holds env cl sub (pkv ∷ pks) w h =
      let answer = publish_to_client env cl sub pkv w in
      retained_loop-Holds env cl sub pks (heard cl pkv answer)
        (heard-Holds cl pkv answer (publish_to_client-Holds stable r b env cl sub pkv w h))

  pub publish_retained_to_client-Holds :
      (env : Env) (cl : ℕ) (sub : Subscription) (existed : Bool) (w : World)
      → Holds w
      → Holds (publish_retained_to_client env cl sub existed w)
  unfolding publish_retained_to_client
  publish_retained_to_client-Holds env cl sub existed w h =
      elim (Bool-cases (is_shared_filter sub.filter)) [
        | inl shared ↦ rw shared h
        | inr single ↦
            elim (Bool-cases ((sub.retain_handling == 1 && existed) || sub.retain_handling == 2)) [
              | inl unwanted ↦ rw (single, unwanted) h
              | inr wanted ↦
                  rw (single, wanted)
                    (retained_loop-Holds env cl (record sub { fwd_retained_flag = true })
                      (messages w.topics sub.filter) w h)
            ]
      ]

  pub retain-Holds :
      (env : Env) (cl : ℕ) (pk : Packet) (w : World) → Holds w → Holds (retain env cl pk w)
  unfolding retain
  retain-Holds env cl pk w h =
      elim (Bool-cases (env.capabilities.retain_available == 0 || pk.ignore)) [
        | inl off ↦ rw off h
        | inr on ↦ rw on h
      ]
