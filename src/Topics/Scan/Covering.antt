-- ===== src/Topics/Scan/Covering.antt =====
-- Which clients `Subscribers` finds, against a matching of filters and topics by their levels.
use mathlib.Core.Path.{subst}
use mqtt_protocol_v.Common.{
  ℕ, ◌≡◌, ◌↔◌, ◌⊎◌, refl, sym, ap, ◌∙◌, false, Option, none, some, List, [], ◌∷◌, inl, inr,
}
use mqtt_protocol_v.Common.Equality.{Bytes, bytes_eq, bytes_instance}
use mqtt_protocol_v.Common.Split.{split}
use mqtt_protocol_v.Topics.Levels.Splitting.{levels_whole}
use mqtt_protocol_v.Common.Map.{lookup}
use mqtt_protocol_v.Topics.Stores.{Subscribers, no_subscribers}
use mqtt_protocol_v.Topics.Tree.{Node, Particle, particle, Particles, get, or_new, node_of, node_at}
use mqtt_protocol_v.Topics.Tree.Nodes.{node_at-cons, node_at-new}
use mqtt_protocol_v.Topics.Scan.Gathered.{
  Holds, Reached, Ends, node_at-here, below_hash-Reached, end_of-Reached,
}
use mqtt_protocol_v.Topics.Scan.{plus, hash, descend, end_of, scan, subscribers}
use mqtt_protocol_v.Topics.Tree.{new_particle}

-- How the levels of a filter cover those of a topic that begins with `k`, where `R` says it of what
-- follows the filter's first level: that level is `#` and the last, or it is `k` or `+`.
abbrev pub Level : (Bytes → List Bytes → Type 0) → Bytes → List Bytes → Type 0
Level R k [] = ⊥
Level R k (f ∷ fs) = ((f ≡ hash) × (fs ≡ [])) ⊎ (((f ≡ k) ⊎ (f ≡ plus)) × R f fs)

-- At the end of the topic the filter ends, or `#` follows, but not behind `+`.
abbrev pub AtEnd : Bytes → List Bytes → Type 0
AtEnd f fs = (fs ≡ []) ⊎ ((fs ≡ hash ∷ []) × (bytes_eq f plus ≡ false))

-- The levels of a filter cover the levels of a topic.
abbrev pub Covers : List Bytes → List Bytes → Type 0
Covers fs [] = ⊥
Covers fs (k ∷ []) = Level AtEnd k fs
Covers fs (k ∷ next ∷ keys) = Level (λ _ gs. Covers gs (next ∷ keys)) k fs

module _ (topic c : Bytes) where
  held : {m n : Node} → m ≡ n → Holds topic c m.subscriptions → Holds topic c n.subscriptions
  held is x = subst (λ m. Holds topic c m.subscriptions) is x

  -- What stands under one child, at the paths of a family.
  abbrev Branch : (Bytes → List Bytes → Type 0) → Particle → Bytes → Type 0
  Branch R t f = (fs : List Bytes) × R f fs × Holds topic c (node_at (f ∷ fs) t).subscriptions

  Ends-Branch :
      (f : Bytes) (n : Node) (ps : Particles)
      → Ends topic c f (get f ps) ↔ Branch AtEnd (particle n ps) f
  unfolding Ends
  Ends-Branch f n ps =
      let here : node_at (f ∷ []) (particle n ps) ≡ node_of (get f ps) =
        node_at-cons f [] n ps ∙ node_at-here (get f ps) in
      let wild = node_at-cons f (hash ∷ []) n ps in
      (
        elim [
          | inl x ↦ ([], inl refl, held (sym here) x)
          | inr (e, x) ↦ (hash ∷ [], inr (refl, e), held (sym wild) x)
        ],
        λ (fs, shape, x). elim shape [
          | inl is ↦ inl (held (ap (λ gs. node_at (f ∷ gs) (particle n ps)) is ∙ here) x)
          | inr (is, e) ↦ inr (e, held (ap (λ gs. node_at (f ∷ gs) (particle n ps)) is ∙ wild) x)
        ],
      )

  -- The paths of a family that hold a client's subscription.
  abbrev Below : (List Bytes → Type 0) → Particle → Type 0
  Below R t = (fs : List Bytes) × R fs × Holds topic c (node_at fs t).subscriptions

  -- Three branches make up the paths that cover.
  covering :
      (R : Bytes → List Bytes → Type 0) (k : Bytes) (t : Particle)
      → ((Branch R t k ⊎ Branch R t plus) ⊎ Holds topic c (node_at (hash ∷ []) t).subscriptions)
        ↔ Below (Level R k) t
  covering R k t = (
    elim [
      | inl (inl (fs, r, x)) ↦ (k ∷ fs, inr (inl refl, r), x)
      | inl (inr (fs, r, x)) ↦ (plus ∷ fs, inr (inr refl, r), x)
      | inr x ↦ (hash ∷ [], inl (refl, refl), x)
    ],
    λ (path, shape, x). parted path shape x,
  )
    where
      parted :
          (path : List Bytes)
          → Level R k path
          → Holds topic c (node_at path t).subscriptions
          → (Branch R t k ⊎ Branch R t plus) ⊎ Holds topic c (node_at (hash ∷ []) t).subscriptions
      parted [] shape x = absurd shape
      parted (f ∷ fs) (inl (is, no_more)) x = inr (
          subst (λ g. Holds topic c (node_at g t).subscriptions)
            (ap (λ g. g ∷ fs) is ∙ ap (λ gs. hash ∷ gs) no_more) x)
      parted (f ∷ fs) (inr (inl is, r)) x = inl (inl (subst (λ g. Branch R t g) is (fs, r, x)))
      parted (f ∷ fs) (inr (inr is, r)) x = inl (inr (subst (λ g. Branch R t g) is (fs, r, x)))

  nothing_new : (fs : List Bytes) → Holds topic c (node_at fs new_particle).subscriptions → ⊥
  nothing_new fs x = held (node_at-new fs) x

  -- where the scan goes down into a child
  descend-Reached :
      (go : Particle → Subscribers → Subscribers) (R : List Bytes → Type 0) (o : Option Particle)
      (s : Subscribers)
      → ((p : Particle) (s : Subscribers) → Reached c (go p s) ↔ (Reached c s ⊎ Below R p))
      → Reached c (descend o go s) ↔ (Reached c s ⊎ Below R (or_new o))
  unfolding descend
  descend-Reached go R none s each =
      (λ h. inl h, elim [ inl h ↦ h | inr (fs, _, x) ↦ absurd (nothing_new fs x) ])
  descend-Reached go R (some p) s each = each p s

  Below-Branch :
      (R : List Bytes → Type 0) (f : Bytes) (n : Node) (ps : Particles)
      → Below R (or_new (get f ps)) ↔ Branch (λ _ fs. R fs) (particle n ps) f
  Below-Branch R f n ps = (
    λ (fs, r, x). (fs, r, held (sym (node_at-cons f fs n ps)) x),
    λ (fs, r, x). (fs, r, held (node_at-cons f fs n ps) x),
  )

  -- the three parts of a scan, one after the other
  three_parts :
      {S₁ S₂ S₃ S₀ A B C P Q H F : Type 0}
      → (S₁ ↔ (S₀ ⊎ P))
      → (P ↔ A)
      → (S₂ ↔ (S₁ ⊎ Q))
      → (Q ↔ B)
      → (S₃ ↔ (S₂ ⊎ H))
      → (H ↔ C)
      → (((A ⊎ B) ⊎ C) ↔ F)
      → S₃ ↔ (S₀ ⊎ F)
  three_parts (a, a') (p, p') (b, b') (q, q') (d, d') (h, h') (f, f') = (
    λ x. elim (d x) [
      | inl y ↦ elim (b y) [
        | inl z ↦ elim (a z) [ inl w ↦ inl w | inr w ↦ inr (f (inl (inl (p w)))) ]
        | inr z ↦ inr (f (inl (inr (q z))))
      ]
      | inr y ↦ inr (f (inr (h y)))
    ],
    elim [
      | inl x ↦ d' (inl (b' (inl (a' (inl x)))))
      | inr x ↦ elim (f' x) [
        | inl (inl y) ↦ d' (inl (b' (inl (a' (inr (p' y))))))
        | inl (inr y) ↦ d' (inl (b' (inr (q' y))))
        | inr y ↦ d' (inr (h' y))
      ]
    ],
  )

  root_hash :
      (n : Node) (ps : Particles) → node_at (hash ∷ []) (particle n ps) ≡ node_of (get hash ps)
  root_hash n ps = node_at-cons hash [] n ps ∙ node_at-here (get hash ps)

  -- What a scan from a particle adds: the clients with a subscription at a path that covers the keys.
  scan-Reached :
      (keys : List Bytes) (t : Particle) (s : Subscribers)
      → Reached c (scan topic keys t s) ↔ (Reached c s ⊎ Below (λ path. Covers path keys) t)
  unfolding scan
  scan-Reached [] t s = (λ h. inl h, elim [ inl h ↦ h | inr (_, x, _) ↦ absurd x ])
  scan-Reached (key ∷ []) (particle n ps) s =
      three_parts (end_of-Reached topic c key (get key ps) s) (Ends-Branch key n ps)
        (end_of-Reached topic c plus (get plus ps) (end_of topic key (get key ps) s))
        (Ends-Branch plus n ps) (below_hash-Reached topic c (get hash ps) _)
        (held (sym (root_hash n ps)), held (root_hash n ps)) (covering AtEnd key (particle n ps))
  scan-Reached (key ∷ next ∷ keys) (particle n ps) s =
      let go = scan topic (next ∷ keys) in
      three_parts
        (descend-Reached go (λ fs. Covers fs (next ∷ keys)) (get key ps) s
          (scan-Reached (next ∷ keys)))
        (Below-Branch _ key n ps)
        (descend-Reached go (λ fs. Covers fs (next ∷ keys)) (get plus ps)
          (descend (get key ps) go s) (scan-Reached (next ∷ keys)))
        (Below-Branch _ plus n ps) (below_hash-Reached topic c (get hash ps) _)
        (held (sym (root_hash n ps)), held (root_hash n ps))
        (covering (λ _ gs. Covers gs (next ∷ keys)) key (particle n ps))

-- `Subscribers` finds for a topic exactly the clients that hold, at a path of levels that covers the
-- topic's levels, a subscription that is not hidden from it.
pub subscribers-Covers :
    (root : Particle) (b : ℕ) (rest c : Bytes)
    → Reached c (subscribers root (b ∷ rest)) ↔ (
        (path : List Bytes) × Covers path (split b'/' (b ∷ rest))
        × Holds (b ∷ rest) c (node_at path root).subscriptions)
unfolding subscribers lookup
subscribers-Covers root b rest c =
    let topic = b ∷ rest in
    let (to, from) = scan-Reached topic c (split b'/' topic) root no_subscribers in
    rw (levels_whole topic)
      (λ h. elim (to h) [ inl nobody ↦ absurd cc | inr found ↦ found ], λ found. from (inr found))
