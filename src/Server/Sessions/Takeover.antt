-- ===== src/Server/Sessions/Takeover.antt =====
-- A client that connects again with its session.
use mathlib.Core.Path.{subst}
use mqtt_protocol_v.Common.{
  ℕ, ◌≡◌, refl, sym, ap, ◌∙◌, Bool, true, false, some, ◌==◌, ==_iff, arith, if_false, [],
}
use mqtt_protocol_v.Common.Equality.{Bytes, bytes_instance}
use mqtt_protocol_v.Common.Map
use mqtt_protocol_v.Common.Map.{Map, has, lookup, lookup-insert}
use mqtt_protocol_v.Packets.Codes.{err_session_taken_over}
use mqtt_protocol_v.Packets.Packet.{Packet}
use mqtt_protocol_v.Session.Inflight.{Inflight}
use mqtt_protocol_v.Server.State.{World, Client, Env}
use mqtt_protocol_v.Server.Writing.{disconnect_client}
use mqtt_protocol_v.Server.Writing.Effects.{disconnect_client-Silent, disconnect_client-field}
use mqtt_protocol_v.Server.Subscribing.{unsubscribe_client}
use mqtt_protocol_v.Server.Sessions.{
  clear_inflights, inherit_inflight, inherit_all, carry, starts_afresh, inherit_from, by_existing,
  inherit_client_session, take_over,
}
use mqtt_protocol_v.Server.Writing.Effects.{stop-session}
use mqtt_protocol_v.Server.Sessions.Inheriting.{
  Beside, Beside-trans, Beside-IsKept, inherit_all-IsKept, inherit_all-heap, clear_inflights-Beside,
  unsubscribe_client-Beside, inherit_inflight-internal, inherit_inflight-heap, IsKept, IsFor,
}

module _ (env : Env) (cl existing : ℕ) (apart : (existing == cl) ≡ false)
    (apart' : (cl == existing) ≡ false) (w : World) where
  carry-Beside :
      let old = w.heap existing in
      let taken = inherit_inflight env cl old.inflight (take_over existing w) in
      Beside cl (inherit_all cl old.subscriptions taken) (carry env cl existing w)
  unfolding carry
  carry-Beside =
      let old = w.heap existing in
      let taken = inherit_inflight env cl old.inflight (take_over existing w) in
      let all = inherit_all cl old.subscriptions taken in
      let over : (all.heap existing).taken_over ≡ true =
        ap (λ (c : Client). c.taken_over)
          ((inherit_all-heap cl old.subscriptions taken existing).0 apart
            ∙ inherit_inflight-heap env cl old.inflight (take_over existing w) existing apart)
        ∙ rw ((==_iff existing existing).1 refl) refl in
      Beside-trans cl all (unsubscribe_client existing all)
        (clear_inflights existing (unsubscribe_client existing all))
        (unsubscribe_client-Beside cl existing apart' all over)
        (clear_inflights-Beside cl existing apart' (unsubscribe_client existing all))

  carry-Kept :
      (filter : Bytes)
      → IsFor filter (w.heap existing).subscriptions
      → (w.heap cl).inflight.internal ≡ []
      → (((carry env cl existing w).heap cl).inflight.internal
          ≡ (w.heap existing).inflight.internal)
        × IsKept cl filter (carry env cl existing w)
  carry-Kept filter for fresh =
      let old = w.heap existing in
      let taken = inherit_inflight env cl old.inflight (take_over existing w) in
      let all = inherit_all cl old.subscriptions taken in
      let own_messages : ((take_over existing w).heap cl).inflight.internal
          ≡ (w.heap cl).inflight.internal =
        rw apart' refl in
      (
        ap (λ (c : Client). c.inflight.internal) carry-Beside.0
            ∙ ap (λ (i : Inflight). i.internal) (inherit_all-heap cl old.subscriptions taken cl).1
            ∙ inherit_inflight-internal env cl old.inflight (take_over existing w)
                (own_messages ∙ fresh),
        Beside-IsKept cl filter all (carry env cl existing w) carry-Beside
            (inherit_all-IsKept cl old.subscriptions taken filter for),
      )

-- A session that is there to be resumed: its answer, its messages and one of its subscriptions.
abbrev pub IsResumed : ℕ → Bytes → Client → Bool × World → Type 0
IsResumed cl filter old (present, w) =
    (present ≡ true) × ((w.heap cl).inflight.internal ≡ old.inflight.internal) × IsKept cl filter w

-- A client that has no messages in flight yet, and connects with the id of a known client, another
-- than itself, gets its session, unless it asks for a clean start, or the known client is of a
-- version below 5 and had a clean session: the answer is that a session is present, the messages in
-- flight are those of the old connection, and each filter that the old client had a subscription
-- for is in the new client's subscriptions and in the index under its id.
pub inherit_client_session-IsResumed :
    (env : Env) (pk : Packet) (cl existing : ℕ) (w : World) (filter : Bytes)
    → Map.lookup (w.heap cl).id w.clients ≡ some existing
    → (existing == cl) ≡ false
    → starts_afresh pk (w.heap existing) ≡ false
    → (w.heap cl).inflight.internal ≡ []
    → IsFor filter (w.heap existing).subscriptions
    → IsResumed cl filter (w.heap existing) (inherit_client_session env pk cl w)
unfolding inherit_client_session by_existing inherit_from
inherit_client_session-IsResumed env pk cl existing w filter known apart kept fresh for =
    let w' = (disconnect_client env existing err_session_taken_over w).1 in
    let code = err_session_taken_over in
    let kept' : starts_afresh pk (w'.heap existing) ≡ false =
      disconnect_client-field (starts_afresh pk)
        (λ cause now c.
          let (clean, version, subs) = stop-session cause now c in rw (clean, version) refl)
        env existing code w existing
      ∙ kept in
    let subs : (w'.heap existing).subscriptions ≡ (w.heap existing).subscriptions =
      disconnect_client-field (λ c. c.subscriptions) (λ cause now c. (stop-session cause now c).2)
        env existing code w existing in
    let inflight : (w'.heap existing).inflight ≡ (w.heap existing).inflight =
      ((disconnect_client-Silent env existing code w).1 existing).1 in
    let (carried, there) =
      carry-Kept env cl existing apart (ground (arith, apart)) w' filter
        (subst (IsFor filter) (sym subs) for)
        (ap (λ (i : Inflight). i.internal) ((disconnect_client-Silent env existing code w).1 cl).1
          ∙ fresh) in
    rw known (
      if_false (IsResumed cl filter (w.heap existing)) (starts_afresh pk (w'.heap existing)) _ _
        kept' (refl, carried ∙ ap (λ (i : Inflight). i.internal) inflight, there))
