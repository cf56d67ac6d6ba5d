-- ===== src/Modules/PriorityMessaging/Delivery.antt =====
-- What the scheduler delivers, and when.
use mqtt_protocol_v.Common.{
  ℕ, suc, ◌≡◌, refl, ◌∙◌, true, Option, none, some, List, [], ◌∷◌, ◌++◌, arith, length, sym,
  Option-cases, Bool-cases, inl, inr,
}
use mathlib.Core.List.{append_assoc, append-nil}
use mqtt_protocol_v.Common.Equality.{Bytes, bytes_eq}
use mqtt_protocol_v.Packets.Packet.{Packet}
use mqtt_protocol_v.Packets.UserProperty.{UserProperty}
use mqtt_protocol_v.Modules.PriorityMessaging.{
  PriorityHook, QueuedPacket, enqueue, on_publish, next_packet, age, mark, priority_of,
  is_processed, processed_mark, priority_urgent, priority_normal, priority_high,
}

-- A round of one of the loops, or a publish.
pub data Event : Type 0 where
  publish : Bytes → Packet → ℕ → Event
  tick : ℕ → Event
  deliver : Event

abbrev after : PriorityHook → Option (QueuedPacket × PriorityHook) → PriorityHook
after h none = h
after h (some (pp, h')) = h'

unfoldable pub run : PriorityHook → List Event → PriorityHook
run h [] = h
run h (publish cl pk now ∷ es) = run (on_publish h cl pk now).0 es
run h (tick now ∷ es) = run (age h now) es
run h (deliver ∷ es) = run (after h (next_packet h)) es

-- How many rounds of the scheduler the events hold.
abbrev pub deliveries : List Event → ℕ
deliveries [] = 0
deliveries (publish cl pk now ∷ es) = deliveries es
deliveries (tick now ∷ es) = deliveries es
deliveries (deliver ∷ es) = suc (deliveries es)

-- what is taken off, without the hook that is left
abbrev pub taken : Option (QueuedPacket × PriorityHook) → Option QueuedPacket
taken none = none
taken (some (pp, h)) = some pp

enqueue_keeps :
    (h : PriorityHook) (priority : Bytes) (pp : QueuedPacket)
    → (more : List QueuedPacket) × ((enqueue h priority pp).urgent ≡ h.urgent ++ more)
unfolding enqueue
enqueue_keeps h priority pp = elim (Bool-cases (bytes_eq priority priority_urgent)) [
  | inl urgent ↦ rw urgent (pp ∷ [], refl)
  | inr other ↦ elim (Bool-cases (bytes_eq priority priority_high)) [
    | inl high ↦ rw (other, high) ([], sym (append-nil h.urgent))
    | inr normal ↦ rw (other, normal) ([], sym (append-nil h.urgent))
  ]
]

publish_keeps :
    (h : PriorityHook) (cl : Bytes) (pk : Packet) (now : ℕ)
    → (more : List QueuedPacket) × ((on_publish h cl pk now).0.urgent ≡ h.urgent ++ more)
unfolding on_publish
publish_keeps h cl pk now = elim (Option-cases (priority_of pk.properties.user priority_normal)) [
  | inl done ↦ rw (done, on_publish) ([], sym (append-nil h.urgent))
  | inr (priority, waits) ↦ rw (waits, on_publish) (enqueue_keeps h priority _)
]

age_keeps :
    (h : PriorityHook) (now : ℕ)
    → (more : List QueuedPacket) × ((age h now).urgent ≡ h.urgent ++ more)
unfolding age
age_keeps h now = (_, append_assoc h.urgent _ _)

-- a queue that grows at its end keeps what stands in it
longer :
    (u front back more : List QueuedPacket) (pp : QueuedPacket) (u' : List QueuedPacket)
    → u ≡ front ++ (pp ∷ back)
    → u' ≡ u ++ more
    → u' ≡ front ++ (pp ∷ (back ++ more))
longer u front back more pp u' e grown = grown ∙ rw e (append_assoc front (pp ∷ back) more)

next_urgent :
    (h : PriorityHook) (pp : QueuedPacket) (rest : List QueuedPacket)
    → h.urgent ≡ pp ∷ rest
    → next_packet h ≡ some (pp, record h { urgent = rest })
unfolding next_packet
next_urgent h pp rest e = ground arith

-- A packet in the urgent queue with `n` packets before it is what the scheduler takes after exactly
-- `n` rounds, whatever is published, promoted or delivered in between.
pub urgent_delivery :
    (h : PriorityHook) (front back : List QueuedPacket) (pp : QueuedPacket) (es : List Event)
    → h.urgent ≡ front ++ (pp ∷ back)
    → deliveries es ≡ length front
    → taken (next_packet (run h es)) ≡ some pp
unfolding run
urgent_delivery h [] back pp [] e n = rw (next_urgent h pp back e)
urgent_delivery h (x ∷ front) back pp [] e n = absurd (omega arith)
urgent_delivery h front back pp (publish cl pk now ∷ es) e n =
    let (more, grown) = publish_keeps h cl pk now in
    urgent_delivery (on_publish h cl pk now).0 front (back ++ more) pp es
      (longer h.urgent front back more pp _ e grown) n
urgent_delivery h front back pp (tick now ∷ es) e n =
    let (more, grown) = age_keeps h now in
    urgent_delivery (age h now) front (back ++ more) pp es
      (longer h.urgent front back more pp _ e grown) n
urgent_delivery h [] back pp (deliver ∷ es) e n = absurd (omega arith)
urgent_delivery h (x ∷ front) back pp (deliver ∷ es) e n =
    rw (next_urgent h x (front ++ (pp ∷ back)) e) (
      urgent_delivery (record h { urgent = front ++ (pp ∷ back) }) front back pp es refl
        (omega arith))

priority_of-marked :
    (ps : List UserProperty) (priority : Bytes)
    → priority_of (ps ++ processed_mark ∷ []) priority ≡ none
unfolding priority_of bytes_eq
priority_of-marked [] priority = refl
priority_of-marked (p ∷ ps) priority = elim (Bool-cases (is_processed p)) [
  | inl done ↦ rw done
  | inr waits ↦ rw waits (priority_of-marked ps _)
]

-- A packet that the scheduler injects is never queued again: `OnPublish` lets it pass and leaves the
-- queues as they are, whatever properties its client gave it.
pub on_publish-mark :
    (h : PriorityHook) (cl : Bytes) (pk : Packet) (now : ℕ)
    → on_publish h cl (mark pk) now ≡ (h, true)
unfolding on_publish mark
on_publish-mark h cl pk now = rw (priority_of-marked pk.properties.user priority_normal, on_publish)
