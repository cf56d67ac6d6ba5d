-- ===== src/Server/Sessions/Inheriting.antt =====
-- The parts of a session that a client takes over, and whom they concern.
use mathlib.Core.Path.{subst}
use mqtt_protocol_v.Common.{
  ℕ, ◌≡◌, refl, ap, ◌∙◌, ◌⊎◌, true, false, not, ◌&&◌, Option, some, List, [], ◌∷◌, ltb, length,
  ◌==◌, ==_iff, if_both, if_true, if_false, arith, sym, Bool-cases, inl, inr,
}
use mqtt_protocol_v.Common.Equality.{Bytes, bytes_eq, bytes_eq_iff, bytes_instance}
use mqtt_protocol_v.Common.Map
use mqtt_protocol_v.Common.Map.{Map, has, lookup, lookup-insert}
use mqtt_protocol_v.Packets.Packet.{Packet, Subscription}
use mqtt_protocol_v.Session.Inflight.{Inflight, delete, reset_receive_quota, reset_send_quota}
use mqtt_protocol_v.Session.Inflight.Listing.{clone, get_all}
use mqtt_protocol_v.Topics.Index
use mqtt_protocol_v.Topics.Index.Address.{address, held, same_address, same_address_refl}
use mqtt_protocol_v.Topics.Index.Updates.{held-subscribe}
use mqtt_protocol_v.Server.State.{World, Client, Env, update_client, with_inflight}
use mqtt_protocol_v.Server.Acks.{drop_inflight, under_way}
use mqtt_protocol_v.Server.Subscribing.{unsubscribe_client}
use mqtt_protocol_v.Server.Sessions.{
  discard, discard_all, clear_inflights, inherit_inflight, inherit_subscription, inherit_all,
}

-- A client is as before, and so is the index.
abbrev pub Beside : ℕ → World → World → Type 0
Beside r w w' = (w'.heap r ≡ w.heap r) × (w'.topics ≡ w.topics)

pub Beside-trans : (r : ℕ) (u v w : World) → Beside r u v → Beside r v w → Beside r u w
Beside-trans r u v w (heap, topics) (heap', topics') = (heap' ∙ heap, topics' ∙ topics)

module _ (r other : ℕ) (apart : (r == other) ≡ false) where
  update_client-Beside : (f : Client → Client) (w : World) → Beside r w (update_client other f w)
  update_client-Beside f w = rw apart (refl, refl)

  discard-Beside : (tk : Packet) (w : World) → Beside r w (discard other tk w)
  unfolding discard drop_inflight
  discard-Beside tk w =
      let P = Beside r w in
      let gone = with_inflight other (λ i. (delete i tk.packet_id).0) w in
      let same : P gone = rw apart (refl, refl) in
      let dropped = if_both P (under_way w other tk.packet_id) same same in
      if_both P (under_way w other tk.packet_id) dropped dropped

  discard_all-Beside : (tks : List Packet) (w : World) → Beside r w (discard_all other tks w)
  unfolding discard_all
  discard_all-Beside [] w = (refl, refl)
  discard_all-Beside (tk ∷ tks) w =
      Beside-trans r w (discard other tk w) (discard_all other tks (discard other tk w))
        (discard-Beside tk w) (discard_all-Beside tks (discard other tk w))

  pub clear_inflights-Beside : (w : World) → Beside r w (clear_inflights other w)
  unfolding clear_inflights
  clear_inflights-Beside w = discard_all-Beside (get_all (w.heap other).inflight false) w

  -- a client that was taken over leaves the index alone
  pub unsubscribe_client-Beside :
      (w : World) → (w.heap other).taken_over ≡ true → Beside r w (unsubscribe_client other w)
  unfolding unsubscribe_client
  unsubscribe_client-Beside w over =
      if_true (Beside r w) (w.heap other).taken_over _ _ over
        (update_client-Beside (λ c. record c { subscriptions = [] }) w)

-- A subscription under a filter, in the session of a client and in the index.
abbrev pub IsKept : ℕ → Bytes → World → Type 0
IsKept cl filter w =
    (has (Map.lookup filter (w.heap cl).subscriptions) ≡ true)
    × (has (held w.topics (address filter) (w.heap cl).id) ≡ true)

pub Beside-IsKept :
    (cl : ℕ) (filter : Bytes) (w w' : World)
    → Beside cl w w'
    → IsKept cl filter w
    → IsKept cl filter w'
Beside-IsKept cl filter w w' (heap, topics) kept = rw (heap, topics) kept

module _ (cl : ℕ) (sub : Subscription) where
  -- the client with the subscription
  abbrev noted : World → World
  noted v =
      update_client cl (λ c. record c { subscriptions = Map.insert sub.filter sub c.subscriptions })
        v

  noted-IsKept :
      (v : World)
      → has (held v.topics (address sub.filter) (v.heap cl).id) ≡ true
      → IsKept cl sub.filter (noted v)
  noted-IsKept v indexed =
      let m = (v.heap cl).subscriptions in
      let found : Map.lookup sub.filter (Map.insert sub.filter sub m) ≡ some sub =
        lookup-insert sub.filter sub.filter sub m
        ∙ rw ((bytes_eq_iff sub.filter sub.filter).1 refl) refl in
      rw ((==_iff cl cl).1 refl) (ap has found, indexed)

  noted-keeps : (v : World) (filter : Bytes) → IsKept cl filter v → IsKept cl filter (noted v)
  noted-keeps v filter (own, indexed) =
      let found = lookup-insert sub.filter filter sub (v.heap cl).subscriptions in
      rw ((==_iff cl cl).1 refl) (
        ap has found
            ∙ if_both (λ (o : Option Subscription). has o ≡ true) (bytes_eq sub.filter filter) refl
                own,
        indexed,
      )

  inherit_subscription-IsKept : (w : World) → IsKept cl sub.filter (inherit_subscription cl sub w)
  unfolding inherit_subscription
  inherit_subscription-IsKept w =
      let id = (w.heap cl).id in
      let (topics, is_new) = Index.subscribe w.topics id sub in
      let found : held topics (address sub.filter) id ≡ some sub =
        (held-subscribe w.topics id sub (address sub.filter) id).0
        ∙ rw (same_address_refl (address sub.filter), (bytes_eq_iff id id).1 refl) refl in
      let kept = noted-IsKept (record w { topics = topics }) (ap has found) in
      if_both (λ (v : World). IsKept cl sub.filter (noted v)) is_new kept kept

  inherit_subscription-keeps :
      (w : World) (filter : Bytes)
      → IsKept cl filter w
      → IsKept cl filter (inherit_subscription cl sub w)
  unfolding inherit_subscription
  inherit_subscription-keeps w filter (own, indexed) =
      let id = (w.heap cl).id in
      let (topics, is_new) = Index.subscribe w.topics id sub in
      let holds : has (held topics (address filter) id) ≡ true =
        ap has (held-subscribe w.topics id sub (address filter) id).0
        ∙ if_both (λ (o : Option Subscription). has o ≡ true)
            (same_address (address sub.filter) (address filter) && bytes_eq id id) {x = some sub}
            refl indexed in
      let kept = noted-keeps (record w { topics = topics }) filter (own, holds) in
      if_both (λ (v : World). IsKept cl filter (noted v)) is_new kept kept

  -- the other clients, and the rest of this one
  inherit_subscription-heap :
      (w : World) (r : ℕ)
      → ((r == cl) ≡ false → (inherit_subscription cl sub w).heap r ≡ w.heap r)
        × (((inherit_subscription cl sub w).heap r).inflight ≡ (w.heap r).inflight)
  unfolding inherit_subscription
  inherit_subscription-heap w r =
      let P : World → Type 0 = λ v.
        ((r == cl) ≡ false → (noted v).heap r ≡ w.heap r)
        × (((noted v).heap r).inflight ≡ (w.heap r).inflight) in
      let same : P w = (
        (λ apart. rw apart refl),
        elim (Bool-cases (r == cl)) [ inl here ↦ rw here refl | inr apart ↦ rw apart refl ],
      ) in
      if_both P (Index.subscribe w.topics (w.heap cl).id sub).1 same same

-- the loop over the subscriptions of the session
pub inherit_all-keeps :
    (cl : ℕ) (subs : Map Bytes Subscription) (w : World) (filter : Bytes)
    → IsKept cl filter w
    → IsKept cl filter (inherit_all cl subs w)
unfolding inherit_all
inherit_all-keeps cl [] w filter kept = kept
inherit_all-keeps cl ((key, sub) ∷ subs) w filter kept =
    inherit_all-keeps cl subs (inherit_subscription cl sub w) filter
      (inherit_subscription-keeps cl sub w filter kept)

-- a filter that one of the subscriptions is for
abbrev pub IsFor : Bytes → Map Bytes Subscription → Type 0
IsFor filter [] = ⊥
IsFor filter ((key, sub) ∷ subs) = (sub.filter ≡ filter) ⊎ IsFor filter subs

pub inherit_all-IsKept :
    (cl : ℕ) (subs : Map Bytes Subscription) (w : World) (filter : Bytes)
    → IsFor filter subs
    → IsKept cl filter (inherit_all cl subs w)
unfolding inherit_all
inherit_all-IsKept cl [] w filter for = absurd for
inherit_all-IsKept cl ((key, sub) ∷ subs) w filter (inl is) =
    inherit_all-keeps cl subs (inherit_subscription cl sub w) filter (
      subst (λ f. IsKept cl f (inherit_subscription cl sub w)) is
        (inherit_subscription-IsKept cl sub w))
inherit_all-IsKept cl ((key, sub) ∷ subs) w filter (inr below) =
    inherit_all-IsKept cl subs (inherit_subscription cl sub w) filter below

pub inherit_all-heap :
    (cl : ℕ) (subs : Map Bytes Subscription) (w : World) (r : ℕ)
    → ((r == cl) ≡ false → (inherit_all cl subs w).heap r ≡ w.heap r)
      × (((inherit_all cl subs w).heap r).inflight ≡ (w.heap r).inflight)
unfolding inherit_all
inherit_all-heap cl [] w r = ((λ apart. refl), refl)
inherit_all-heap cl ((key, sub) ∷ subs) w r =
    let (other, inflight) = inherit_subscription-heap cl sub w r in
    let (other', inflight') = inherit_all-heap cl subs (inherit_subscription cl sub w) r in
    ((λ apart. other' apart ∙ other apart), inflight' ∙ inflight)

none_listed {ℓ} : {A : Type ℓ} (l : List A) → ltb 0 (length l) ≡ false → l ≡ []
none_listed [] none_left = refl
none_listed (x ∷ l) none_left = ground arith

module _ (env : Env) (cl : ℕ) (e : Inflight) (w : World) where
  pub inherit_inflight-internal :
      (w.heap cl).inflight.internal ≡ []
      → ((inherit_inflight env cl e w).heap cl).inflight.internal ≡ e.internal
  unfolding inherit_inflight clone reset_send_quota reset_receive_quota
  inherit_inflight-internal fresh =
      let P = λ (v : World). (v.heap cl).inflight.internal ≡ e.internal in
      elim (Bool-cases (ltb 0 (length e.internal))) [
        | inl some_left ↦ if_true P _ _ _ some_left (
            rw ((==_iff cl cl).1 refl) (
              if_both (λ (i : Inflight). i.internal ≡ e.internal)
                (0 == 0 && not (env.capabilities.receive_maximum == 0)) refl refl))
        | inr none_left ↦
            if_false P _ _ _ none_left (fresh ∙ sym (none_listed e.internal none_left))
      ]

  pub inherit_inflight-heap :
      (r : ℕ) → (r == cl) ≡ false → (inherit_inflight env cl e w).heap r ≡ w.heap r
  unfolding inherit_inflight
  inherit_inflight-heap r apart =
      if_both (λ (v : World). v.heap r ≡ w.heap r) (ltb 0 (length e.internal)) (rw apart refl) refl
