-- ===== src/Topics/Scan/Gathered.antt =====
-- What a step of the scan adds to the subscribers.
use mathlib.Core.Path.{subst}
use mqtt_protocol_v.Common.{
  ◌≡◌, ◌↔◌, ◌⊎◌, refl, sym, ◌∙◌, Bool, true, false, ◌||◌, Option, none, some, [], ◌∷◌, arith,
  Bool-cases, Option-cases, inl, inr, if◌then◌else◌,
}
use mqtt_protocol_v.Common.Equality.{Bytes, bytes_eq, bytes_eq_iff, bytes_instance}
use mqtt_protocol_v.Common.Map
use mqtt_protocol_v.Common.Map.{has, lookup-insert}
use mqtt_protocol_v.Packets.Packet.{Subscription}
use mqtt_protocol_v.Topics.Stores.{Subscriptions, Subscribers, add_merged}
use mqtt_protocol_v.Topics.Tree.{Node, Particle, particle, get, or_new, node_of, node_at, seek}
use mqtt_protocol_v.Topics.Tree.Nodes.{node_at-cons, node_at-new}
use mqtt_protocol_v.Topics.Scan.{
  plus, hash, is_hidden, gather_clients, gather, wild_end, below_hash, end_of,
}

-- A client has a subscription here that is not hidden from the topic.
abbrev pub Holds : Bytes → Bytes → Subscriptions → Type 0
Holds topic c [] = ⊥
Holds topic c ((client, sub) ∷ subs) =
    ((client ≡ c) × (is_hidden topic sub ≡ false)) ⊎ Holds topic c subs

-- A client is among the subscribers.
abbrev pub Reached : Bytes → Subscribers → Type 0
Reached c s = has (Map.lookup c s.subscriptions) ≡ true

pub has-add_merged :
    (c client : Bytes) (sub : Subscription) (m : Subscriptions)
    → has (Map.lookup c (add_merged client sub m)) ≡ (bytes_eq client c || has (Map.lookup c m))
unfolding add_merged
has-add_merged c client sub m = elim (Option-cases (Map.lookup client m)) [
  | inl nothing ↦ rw (nothing, add_merged) (rw lookup-insert (ground arith))
  | inr (cls, found) ↦ rw (found, add_merged) (rw lookup-insert (ground arith))
]

pub node_at-here : (o : Option Particle) → node_at [] (or_new o) ≡ node_of o
unfolding node_at seek
node_at-here none = refl
node_at-here (some (particle n ps)) = refl

module _ (topic c : Bytes) where
  -- one step of the gathering, on what the test of the filter answers
  gather_step :
      (client : Bytes) (sub : Subscription) (m found : Subscriptions) (hidden : Bool)
      → is_hidden topic sub ≡ hidden
      → {P : Type 0}
      → P ↔ (
          (has (Map.lookup c (if hidden then found else add_merged client sub found)) ≡ true)
          ⊎ Holds topic c m)
      → P ↔ ((has (Map.lookup c found) ≡ true) ⊎ Holds topic c ((client, sub) ∷ m))
  gather_step client sub m found true is (to, from) = (
    λ p. elim (to p) [ inl q ↦ inl q | inr h ↦ inr (inr h) ],
    elim [
      | inl q ↦ from (inl q)
      | inr (inl (mine, shown)) ↦ cc (is, shown)
      | inr (inr h) ↦ from (inr h)
    ],
  )
  gather_step client sub m found false is (to, from) =
      let step = has-add_merged c client sub found in
      let key = bytes_eq_iff client c in
      (
        λ h. elim (to h) [
          | inl now ↦ elim (Bool-cases (bytes_eq client c)) [
            | inl same ↦ inr (inl (key.0 same, is))
            | inr apart ↦ inl (ground (arith, step, now, apart))
          ]
          | inr later ↦ inr (inr later)
        ],
        elim [
          | inl before ↦ from (inl (ground (arith, step, before)))
          | inr (inl (mine, _)) ↦ from (inl (ground (arith, step, key.1 mine)))
          | inr (inr later) ↦ from (inr later)
        ],
      )

  has-gather_clients :
      (m found : Subscriptions)
      → (has (Map.lookup c (gather_clients topic m found)) ≡ true)
        ↔ ((has (Map.lookup c found) ≡ true) ⊎ Holds topic c m)
  unfolding gather_clients
  has-gather_clients [] found = (λ h. inl h, elim [ inl h ↦ h | inr x ↦ absurd x ])
  has-gather_clients ((client, sub) ∷ m) found =
      gather_step client sub m found (is_hidden topic sub) refl
        (has-gather_clients m (if is_hidden topic sub then found else add_merged client sub found))

  pub gather-Reached :
      (n i : Node) (s : Subscribers)
      → Reached c (gather topic n i s) ↔ (Reached c s ⊎ Holds topic c n.subscriptions)
  unfolding gather
  gather-Reached n i s = has-gather_clients n.subscriptions s.subscriptions

  pub below_hash-Reached :
      (o : Option Particle) (s : Subscribers)
      → Reached c (below_hash topic o s) ↔ (Reached c s ⊎ Holds topic c (node_of o).subscriptions)
  unfolding below_hash
  below_hash-Reached none s = (λ h. inl h, elim [ inl h ↦ h | inr x ↦ absurd x ])
  below_hash-Reached (some (particle n ps)) s = gather-Reached n n s

  -- What a particle at the end of the topic brings, itself and by its child `#`.
  unfoldable pub Ends : Bytes → Option Particle → Type 0
  Ends key o =
      Holds topic c (node_of o).subscriptions
      ⊎ ((bytes_eq key plus ≡ false) × Holds topic c (node_at (hash ∷ []) (or_new o)).subscriptions)

  wild_end-Reached :
      (key : Bytes) (n : Node) (o : Option Particle) (s : Subscribers)
      → Reached c (wild_end topic key n o s)
        ↔ (Reached c s ⊎ ((bytes_eq key plus ≡ false) × Holds topic c (node_of o).subscriptions))
  unfolding wild_end
  wild_end-Reached key n none s = (λ h. inl h, elim [ inl h ↦ h | inr (_, x) ↦ absurd x ])
  wild_end-Reached key n (some (particle wild _)) s = elim (Bool-cases (bytes_eq key plus)) [
    | inl is ↦ rw is (λ h. inl h, elim [ inl h ↦ h | inr (e, _) ↦ absurd cc ])
    | inr isnt ↦
        let (to, from) = gather-Reached wild n s in
        rw isnt (
          λ h. elim (to h) [ inl r ↦ inl r | inr x ↦ inr (refl, x) ],
          elim [ inl r ↦ from (inl r) | inr (_, x) ↦ from (inr x) ],
        )
  ]

  pub end_of-Reached :
      (key : Bytes) (o : Option Particle) (s : Subscribers)
      → Reached c (end_of topic key o s) ↔ (Reached c s ⊎ Ends key o)
  unfolding end_of Ends
  end_of-Reached key none s = (
    λ h. inl h,
    elim [
      | inl h ↦ h
      | inr (inl x) ↦ absurd x
      | inr (inr (_, x)) ↦
          absurd (subst (λ m. Holds topic c m.subscriptions) (node_at-new (hash ∷ [])) x)
    ],
  )
  end_of-Reached key (some (particle n ps)) s =
      let (to, from) = wild_end-Reached key n (get hash ps) (gather topic n n s) in
      let (to', from') = gather-Reached n n s in
      let at : node_at (hash ∷ []) (particle n ps) ≡ node_of (get hash ps) =
        node_at-cons hash [] n ps ∙ node_at-here (get hash ps) in
      (
        λ h. elim (to h) [
          | inl g ↦ elim (to' g) [ inl r ↦ inl r | inr x ↦ inr (inl x) ]
          | inr (e, x) ↦ inr (inr (e, subst (λ m. Holds topic c m.subscriptions) (sym at) x))
        ],
        elim [
          | inl r ↦ from (inl (from' (inl r)))
          | inr (inl x) ↦ from (inl (from' (inr x)))
          | inr (inr (e, x)) ↦ from (inr (e, subst (λ m. Holds topic c m.subscriptions) at x))
        ],
      )
