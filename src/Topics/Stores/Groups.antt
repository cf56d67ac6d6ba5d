-- ===== src/Topics/Stores/Groups.antt =====
-- Shared subscriptions as a function of group and client.
use mqtt_protocol_v.Common.{
  length, ◌==◌, ==_iff, ◌≡◌, refl, sym, ap, ◌∙◌, ◌&&◌, Option, none, some, [], ◌∷◌, Bool-cases,
  Option-cases, arith, inl, inr, if◌then◌else◌,
}
use mqtt_protocol_v.Common.Equality.{Bytes, bytes_eq, bytes_eq_iff, bytes_instance}
use mqtt_protocol_v.Common.Map
use mqtt_protocol_v.Common.Map.{has, lookup-insert, lookup-delete}
use mqtt_protocol_v.Packets.Packet.{Subscription}
use mqtt_protocol_v.Topics.Stores.{
  Subscriptions, SharedSubscriptions, or_empty, add_shared, get_shared, delete_shared,
}
use mqtt_protocol_v.Common.{length, ◌==◌, ==_iff, length}

abbrev entry : Bytes → Option Subscriptions → Option Subscription
entry j o = Map.lookup j (or_empty o)

module _ (g c h j : Bytes) (s t : SharedSubscriptions) (v : Option Subscription) where
  -- a write of one group that changes the entry of one client
  regrouped :
      (o : Option Subscriptions)
      → Map.lookup h t ≡ (if bytes_eq g h then o else Map.lookup h s)
      → entry j o ≡ (if bytes_eq c j then v else entry j (Map.lookup g s))
      → entry j (Map.lookup h t)
        ≡ (if bytes_eq g h && bytes_eq c j then v else entry j (Map.lookup h s))
  regrouped o written there = elim (Bool-cases (bytes_eq g h)) [
    | inl same ↦
        let here : g ≡ h = (bytes_eq_iff g h).0 same in
        rw (written, same)
          (there ∙ ap (λ k. if bytes_eq c j then v else entry j (Map.lookup k s)) here)
    | inr apart ↦ rw (written, apart) refl
  ]

pub get_shared-add_shared :
    (g c h j : Bytes) (sub : Subscription) (s : SharedSubscriptions)
    → get_shared h j (add_shared g c sub s)
      ≡ (if bytes_eq g h && bytes_eq c j then some sub else get_shared h j s)
unfolding get_shared add_shared
get_shared-add_shared g c h j sub s =
    let inner = Map.insert c sub (or_empty (Map.lookup g s)) in
    regrouped g c h j s (Map.insert g inner s) (some sub) (some inner) (lookup-insert g h inner s)
      (lookup-insert c j sub (or_empty (Map.lookup g s)))

-- a map without entries
pub lookup-empty : (j : Bytes) (m : Subscriptions) → length m ≡ 0 → Map.lookup j m ≡ none
unfolding Map.lookup
lookup-empty j [] h = refl
lookup-empty j (x ∷ m) h = absurd (omega arith)

pub get_shared-delete_shared :
    (g c h j : Bytes) (s : SharedSubscriptions)
    → get_shared h j (delete_shared g c s)
      ≡ (if bytes_eq g h && bytes_eq c j then none else get_shared h j s)
unfolding get_shared delete_shared Map.lookup
get_shared-delete_shared g c h j s = elim (Option-cases (Map.lookup g s)) [
  | inl missing ↦
      rw (missing, delete_shared)
        (regrouped g c h j s s none none (ground (arith, missing, bytes_eq_iff g h))
          (rw missing (unfold Map.lookup in ground arith)))
  | inr (subs, found) ↦ elim (Bool-cases (length (Map.delete c subs) == 0)) [
    | inl last ↦
        rw (found, last, delete_shared)
          (regrouped g c h j s (Map.delete g s) none none (lookup-delete g h s) (
            rw found (
              sym (lookup-empty j (Map.delete c subs) ((==_iff _ _).0 last))
              ∙ lookup-delete c j subs)))
    | inr more ↦
        rw (found, more, delete_shared)
          (regrouped g c h j s (Map.insert g (Map.delete c subs) s) none (some (Map.delete c subs))
            (lookup-insert g h (Map.delete c subs) s) (rw found (lookup-delete c j subs)))
  ]
]
