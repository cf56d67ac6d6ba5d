-- ===== src/Session/Aliases/Agreement.antt =====
-- The two sides of topic aliases against each other.
use mqtt_protocol_v.Common.{
  ℕ, ◌+◌, ◌%◌, ◌^◌, ◌≤◌, ◌<◌, ◌≡◌, refl, ap, ◌∙◌, Bool, true, false, none, some, List, [], ◌∷◌,
  arith, ltb, ◌==◌, Bool-cases, Option-cases, inl, inr, if◌then◌else◌,
}
use mqtt_protocol_v.Common.Equality.{Bytes, bytes_eq, bytes_eq_iff, nat_eq, bytes_instance}
use mqtt_protocol_v.Common.Map
use mqtt_protocol_v.Common.Map.{lookup-insert}
use mqtt_protocol_v.Session.Aliases.{
  InboundAliases, OutboundAliases, new_inbound, new_outbound, set_inbound, set_existing,
  set_outbound, set_known,
}

-- A sender that picks aliases and a receiver that resolves them.
pub record Link : Type 0 where
  pub sender : OutboundAliases
  pub receiver : InboundAliases

-- what the receiver reads of a topic that is sent with an alias, or without one where it is 0; a topic
-- whose alias is known already is left out of the packet
abbrev resolve : InboundAliases → Bytes → ℕ × Bool → InboundAliases × Bytes
resolve r topic (alias, known) =
    if alias == 0 then (r, topic) else set_inbound r alias (if known then [] else topic)

pub transmit : Link → Bytes → Link × Bytes
transmit l topic =
    let (s, sent) = set_outbound l.sender topic in
    let (r, read) = resolve l.receiver topic sent in (record { sender = s; receiver = r }, read)

-- what arrives when topics are sent in a row
unfoldable pub received : Link → List Bytes → List Bytes
received l [] = []
received l (topic ∷ topics) = (transmit l topic).1 ∷ received (transmit l topic).0 topics

-- Every alias of the sender is one that the receiver resolves to its topic, and those above the
-- cursor are free.
record Agrees (l : Link) : Type 0 where
  small : l.sender.maximum < 2 ^ 16
  same : l.receiver.maximum ≡ l.sender.maximum
  within : l.sender.cursor ≤ l.sender.maximum
  known :
      (topic : Bytes) (a : ℕ)
      → Map.lookup topic l.sender.internal ≡ some a
      → (0 < a) × (a ≤ l.sender.cursor) × (Map.lookup a l.receiver.internal ≡ some topic)
  free : (a : ℕ) → l.sender.cursor < a → Map.lookup a l.receiver.internal ≡ none

inbound_known :
    (r : InboundAliases) (a : ℕ) (topic : Bytes)
    → r.maximum == 0 ≡ false
    → Map.lookup a r.internal ≡ some topic
    → set_inbound r a [] ≡ (r, topic)
unfolding set_inbound set_existing bytes_eq
inbound_known r a topic on found = rw (on, found, set_inbound) refl

inbound_fresh :
    (r : InboundAliases) (a : ℕ) (topic : Bytes)
    → r.maximum == 0 ≡ false
    → Map.lookup a r.internal ≡ none
    → set_inbound r a topic ≡ (record r { internal = Map.insert a topic r.internal }, topic)
unfolding set_inbound set_existing
inbound_fresh r a topic on missing = rw (on, missing, set_inbound) refl

outbound_known :
    (s : OutboundAliases) (a : ℕ) (topic : Bytes)
    → s.maximum == 0 ≡ false
    → Map.lookup topic s.internal ≡ some a
    → set_outbound s topic ≡ (s, (a, true))
unfolding set_outbound set_known
outbound_known s a topic on found = rw (on, found, set_outbound) refl

-- the sender after a new alias
abbrev extended : OutboundAliases → Bytes → OutboundAliases
extended s topic = record s {
  internal = Map.insert topic (s.cursor + 1) s.internal;
  cursor = s.cursor + 1;
}

outbound_fresh :
    (s : OutboundAliases) (topic : Bytes)
    → s.maximum < 2 ^ 16
    → s.cursor + 1 ≤ s.maximum
    → Map.lookup topic s.internal ≡ none
    → set_outbound s topic ≡ (extended s topic, (s.cursor + 1, false))
unfolding set_outbound set_known
outbound_fresh s topic small room fresh =
    let on : s.maximum == 0 ≡ false = ground arith in
    let alias : (s.cursor % 2 ^ 16 + 1) % 2 ^ 16 ≡ s.cursor + 1 = omega arith in
    let cursor : (s.cursor + 1) % 2 ^ 32 ≡ s.cursor + 1 = omega arith in
    let fits : ltb s.maximum (s.cursor + 1) ≡ false = ground arith in
    rw (on, fresh, alias, cursor, fits, set_outbound) refl

transmit_known :
    (l : Link) (topic : Bytes) (a : ℕ)
    → Agrees l
    → l.sender.maximum == 0 ≡ false
    → Map.lookup topic l.sender.internal ≡ some a
    → transmit l topic ≡ (l, topic)
unfolding transmit
transmit_known l topic a g on found =
    let (positive, low, stored) = g.known topic a found in
    let nonzero : a == 0 ≡ false = ground arith in
    rw (outbound_known l.sender a topic on found, transmit)
      (rw (nonzero, inbound_known l.receiver a topic (ap (λ m. m == 0) g.same ∙ on) stored) refl)

transmit_fresh :
    (l : Link) (topic : Bytes)
    → Agrees l
    → l.sender.cursor + 1 ≤ l.sender.maximum
    → Map.lookup topic l.sender.internal ≡ none
    → transmit l topic ≡ (
      record {
        sender = extended l.sender topic;
        receiver = record (l.receiver) {
          internal = Map.insert (l.sender.cursor + 1) topic l.receiver.internal;
        };
      },
      topic,
    )
unfolding transmit
transmit_fresh l topic g room fresh =
    let nonzero : l.sender.cursor + 1 == 0 ≡ false = ground arith in
    let same = g.same in
    let on : l.receiver.maximum == 0 ≡ false = ground arith in
    rw (outbound_fresh l.sender topic g.small room fresh, transmit)
      (rw
        (
          nonzero,
          inbound_fresh l.receiver (l.sender.cursor + 1) topic on
              (g.free (l.sender.cursor + 1) (omega arith)),
        )
        refl)

extended-Agrees :
    (l : Link) (topic : Bytes)
    → Agrees l
    → l.sender.cursor + 1 ≤ l.sender.maximum
    → Agrees (record {
      sender = extended l.sender topic;
      receiver = record (l.receiver) {
        internal = Map.insert (l.sender.cursor + 1) topic l.receiver.internal;
      };
    })
extended-Agrees l topic g room = record {
  small = g.small;
  same = g.same;
  within = room;
  known = λ t a e. elim (Bool-cases (bytes_eq topic t)) [
    | inl same ↦
        let here : some (l.sender.cursor + 1) ≡ some a = rw (lookup-insert, same) at e in
        let number : l.sender.cursor + 1 ≡ a = cc here in
        let text : topic ≡ t = (bytes_eq_iff topic t).0 same in
        (
          omega (arith, number),
          omega (arith, number),
          rw lookup-insert (ground (arith, number, text)),
        )
    | inr other ↦
        let old : Map.lookup t l.sender.internal ≡ some a = rw (lookup-insert, other) at e in
        let (positive, low, stored) = g.known t a old in
        (positive, omega (arith, low), rw lookup-insert (ground (arith, stored, low)))
  ];
  free = λ a above. rw lookup-insert (ground (arith, g.free a (omega (arith, above))));
}

transmit_off :
    (l : Link) (topic : Bytes) → l.sender.maximum == 0 ≡ true → transmit l topic ≡ (l, topic)
unfolding transmit set_outbound
transmit_off l topic off = rw (off, transmit) refl

transmit_full :
    (l : Link) (topic : Bytes)
    → l.sender.maximum == 0 ≡ false
    → Map.lookup topic l.sender.internal ≡ none
    → ltb l.sender.maximum ((l.sender.cursor + 1) % 2 ^ 32) ≡ true
    → transmit l topic ≡ (l, topic)
unfolding transmit set_outbound set_known
transmit_full l topic on fresh full = rw (on, fresh, full, transmit) refl

transmit-Agrees :
    (l : Link) (topic : Bytes)
    → Agrees l
    → Agrees (transmit l topic).0 × ((transmit l topic).1 ≡ topic)
transmit-Agrees l topic g = elim (Bool-cases (l.sender.maximum == 0)) [
  | inl off ↦ rw (transmit_off l topic off) (g, refl)
  | inr on ↦ elim (Option-cases (Map.lookup topic l.sender.internal)) [
    | inr (a, found) ↦ rw (transmit_known l topic a g on found) (g, refl)
    | inl fresh ↦ elim (Bool-cases (ltb l.sender.maximum ((l.sender.cursor + 1) % 2 ^ 32))) [
      | inl full ↦ rw (transmit_full l topic on fresh full) (g, refl)
      | inr room ↦
          let within = g.within in
          let small = g.small in
          let fits : l.sender.cursor + 1 ≤ l.sender.maximum = ground arith in
          rw (transmit_fresh l topic g fits fresh) (extended-Agrees l topic g fits, refl)
    ]
  ]
]

received-Agrees : (l : Link) (topics : List Bytes) → Agrees l → received l topics ≡ topics
unfolding received
received-Agrees l [] g = refl
received-Agrees l (topic ∷ topics) g =
    let (g', read) = transmit-Agrees l topic g in
    cc (read, received-Agrees (transmit l topic).0 topics g')

-- Whatever topics are sent in a row with the aliases that `OutboundTopicAliases` picks, the topic left
-- out where the alias is known, `InboundTopicAliases` with the same maximum, a uint16, resolves each to
-- the topic that was sent.
pub received_lem :
    (maximum : ℕ) (topics : List Bytes)
    → maximum < 2 ^ 16
    → received (record { sender = new_outbound maximum; receiver = new_inbound maximum }) topics
      ≡ topics
unfolding Map.lookup
received_lem maximum topics h = received-Agrees _ topics (record {
  small = h;
  same = refl;
  within = omega arith;
  known = λ topic a e. cc;
  free = λ a above. refl;
})
