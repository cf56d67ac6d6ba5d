-- ===== src/Modules/PriorityMessaging/Conservation.antt =====
-- No packet is lost or duplicated by the queues.
use mathlib.Core.List.{Perm, perm_middle, perm_append_comm, perm_append_singleton, append_assoc}
use mathlib.Core.List.Perm
use mqtt_protocol_v.Common.{
  if◌then◌else◌, ℕ, List, [], ◌∷◌, ◌++◌, Option-cases, Bool-cases, inl, inr,
}
use mqtt_protocol_v.Common.Equality.{Bytes, bytes_eq}
use mqtt_protocol_v.Packets.Packet.{Packet}
use mqtt_protocol_v.Modules.PriorityMessaging.{
  PriorityHook, QueuedPacket, enqueue, on_publish, age, promoted, kept, starved, priority_of,
  priority_urgent, priority_high, priority_normal,
}

-- all that waits
abbrev pub contents : PriorityHook → List QueuedPacket
contents h = h.urgent ++ (h.high ++ h.normal)

enqueue-Perm :
    (h : PriorityHook) (priority : Bytes) (pp : QueuedPacket)
    → Perm (contents (enqueue h priority pp)) (pp ∷ contents h)
unfolding enqueue
enqueue-Perm h priority pp = elim (Bool-cases (bytes_eq priority priority_urgent)) [
  | inl urgent ↦ rw (urgent, append_assoc) (perm_middle h.urgent (h.high ++ h.normal))
  | inr other ↦ elim (Bool-cases (bytes_eq priority priority_high)) [
    | inl high ↦
        rw (other, high, append_assoc)
          (Perm.trans (Perm.append_left h.urgent (perm_middle h.high h.normal))
            (perm_middle h.urgent (h.high ++ h.normal)))
    | inr normal ↦
        rw (other, normal)
          (Perm.trans
            (Perm.append_left h.urgent
              (Perm.append_left h.high (perm_append_singleton pp h.normal)))
            (Perm.trans (Perm.append_left h.urgent (perm_middle h.high h.normal))
              (perm_middle h.urgent (h.high ++ h.normal))))
  ]
]

-- A publish that is held back adds exactly its packet to what waits, with its client and the time;
-- one that passes changes nothing.
pub on_publish-Perm :
    (h : PriorityHook) (cl : Bytes) (pk : Packet) (now : ℕ)
    → Perm (contents (on_publish h cl pk now).0) (
        if (on_publish h cl pk now).1
        then contents h
        else record { client = cl; pk = pk; enqueued = now } ∷ contents h)
unfolding on_publish
on_publish-Perm h cl pk now = elim (Option-cases (priority_of pk.properties.user priority_normal)) [
  | inl done ↦ rw (done, on_publish) (Perm.refl (contents h))
  | inr (priority, waits) ↦
      rw (waits, on_publish)
        (enqueue-Perm h priority (record { client = cl; pk = pk; enqueued = now }))
]

module _ {A : Type 0} where
  swap_front : (a b c : List A) → Perm (a ++ (b ++ c)) (b ++ (a ++ c))
  swap_front a b c =
      rw (← append_assoc a b c, ← append_assoc b a c) (Perm.append_right c (perm_append_comm a b))

  rearranged : (a b c d : List A) → Perm (a ++ (b ++ (c ++ d))) ((b ++ c) ++ (a ++ d))
  rearranged a b c d = rw (← append_assoc b c d) (swap_front a (b ++ c) d)

promoted-kept :
    (now threshold : ℕ) (l : List QueuedPacket)
    → Perm (promoted now threshold l ++ kept now threshold l) l
unfolding promoted kept
promoted-kept now threshold [] = Perm.refl []
promoted-kept now threshold (pp ∷ l) = elim (Bool-cases (starved now threshold pp)) [
  | inl old ↦ rw old (Perm.cons pp (promoted-kept now threshold l))
  | inr young ↦ rw young (
      Perm.trans (perm_middle (promoted now threshold l) (kept now threshold l))
        (Perm.cons pp (promoted-kept now threshold l)))
]

-- A tick of the aging loop only moves packets between the queues.
pub age-Perm : (h : PriorityHook) (now : ℕ) → Perm (contents (age h now)) (contents h)
unfolding age
age-Perm h now =
    let n = h.config.aging_threshold_normal in
    let hi = h.config.aging_threshold_high in
    let pn = promoted now n h.normal in
    let ph = promoted now hi h.high in
    let kn = kept now n h.normal in
    let kh = kept now hi h.high in
    rw (append_assoc (h.urgent ++ pn) ph (kh ++ kn), append_assoc h.urgent pn (ph ++ (kh ++ kn)))
      (Perm.append_left h.urgent (
        Perm.trans (rearranged pn ph kh kn)
          (Perm.append (promoted-kept now hi h.high) (promoted-kept now n h.normal))))
