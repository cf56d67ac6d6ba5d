-- ===== src/Modules/PriorityMessaging/Aging.antt =====
-- What a tick of the aging loop promotes, and what that is worth to an old packet.
use mathlib.Core.List.{append_assoc}
use mqtt_protocol_v.Common.{
  ℕ, ◌+◌, ◌≡◌, refl, ap, ◌∙◌, true, false, List, [], ◌∷◌, ◌++◌, All, length, length-append,
  Bool-cases, inl, inr, some, sym,
}
use mqtt_protocol_v.Modules.PriorityMessaging.{
  PriorityHook, QueuedPacket, age, promoted, kept, starved, next_packet,
}
use mqtt_protocol_v.Modules.PriorityMessaging.Delivery.{
  Event, run, deliveries, taken, urgent_delivery,
}

-- A packet that has not yet waited for the threshold.
abbrev pub Young : ℕ → ℕ → QueuedPacket → Type 0
Young now threshold pp = starved now threshold pp ≡ false

kept-Young :
    (now threshold : ℕ) (l : List QueuedPacket) → All (Young now threshold) (kept now threshold l)
unfolding kept
kept-Young now threshold [] = tt
kept-Young now threshold (pp ∷ l) = elim (Bool-cases (starved now threshold pp)) [
  | inl old ↦ rw old (kept-Young now threshold l)
  | inr young ↦ rw young (young, kept-Young now threshold l)
]

-- After a tick no packet in the normal or in the high queue has waited for its queue's threshold.
pub age-Young :
    (h : PriorityHook) (now : ℕ)
    → All (Young now h.config.aging_threshold_normal) (age h now).normal
      × All (Young now h.config.aging_threshold_high) (age h now).high
unfolding age
age-Young h now = (kept-Young now _ h.normal, kept-Young now _ h.high)

promoted-append :
    (now threshold : ℕ) (l m : List QueuedPacket)
    → promoted now threshold (l ++ m) ≡ promoted now threshold l ++ promoted now threshold m
unfolding promoted
promoted-append now threshold [] m = refl
promoted-append now threshold (pp ∷ l) m = elim (Bool-cases (starved now threshold pp)) [
  | inl old ↦ rw old (ap (λ t. pp ∷ t) (promoted-append now threshold l m))
  | inr young ↦ rw young (promoted-append now threshold l m)
]

promoted-split :
    (now threshold : ℕ) (front back : List QueuedPacket) (pp : QueuedPacket)
    → starved now threshold pp ≡ true
    → promoted now threshold (front ++ (pp ∷ back))
      ≡ promoted now threshold front ++ (pp ∷ promoted now threshold back)
promoted-split now threshold front back pp old =
    promoted-append now threshold front (pp ∷ back) ∙ unfold promoted in rw old

-- No starvation: a packet that waits in the normal queue when it has reached the threshold at a tick
-- is taken by the scheduler after exactly as many rounds as there were urgent packets and older
-- starved ones before it, whatever is published or promoted afterwards.
pub starved_delivery :
    (h : PriorityHook) (now : ℕ) (front back : List QueuedPacket) (pp : QueuedPacket)
    (es : List Event)
    → h.normal ≡ front ++ (pp ∷ back)
    → starved now h.config.aging_threshold_normal pp ≡ true
    → deliveries es ≡ length h.urgent + length (promoted now h.config.aging_threshold_normal front)
    → taken (next_packet (run (age h now) es)) ≡ some pp
unfolding age
starved_delivery h now front back pp es e old n =
    let thr = h.config.aging_threshold_normal in
    let before = promoted now thr front in
    urgent_delivery (age h now) (h.urgent ++ before)
      (promoted now thr back ++ promoted now h.config.aging_threshold_high h.high) pp es shape
      (n ∙ sym (length-append h.urgent before))
  where
    shape :
        (h.urgent ++ promoted now h.config.aging_threshold_normal h.normal)
          ++ promoted now h.config.aging_threshold_high h.high
        ≡ (h.urgent ++ promoted now h.config.aging_threshold_normal front)
          ++ (pp
              ∷ (promoted now h.config.aging_threshold_normal back
                  ++ promoted now h.config.aging_threshold_high h.high))
    shape =
        let thr = h.config.aging_threshold_normal in
        let split = ap (promoted now thr) e ∙ promoted-split now thr front back pp old in
        rw split (simp append_assoc)
