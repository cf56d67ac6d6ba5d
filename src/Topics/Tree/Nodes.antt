-- ===== src/Topics/Tree/Nodes.antt =====
-- What a change at one path of the tree does at the others.
use mqtt_protocol_v.Common.{
  ◌≡◌, ◌≢◌, refl, sym, ap, ◌∙◌, true, false, none, some, List, [], ◌∷◌, arith, Bool-cases,
  Option-cases, inl, inr, if◌then◌else◌,
}
use mqtt_protocol_v.Common.Equality.{Bytes, bytes_eq, bytes_eq_iff}
use mqtt_protocol_v.Topics.Tree.{
  Node, new_node, Particle, particle, Particles, leaf, child, new_particle, get, put, remove,
  or_new, change, seek, is_empty_node, is_empty, change_trim, node_at,
}

pub get-put :
    (k j : Bytes) (p : Particle) (ps : Particles)
    → get j (put k p ps) ≡ (if bytes_eq k j then some p else get j ps)
unfolding get put
get-put k j p leaf = refl
get-put k j p (child i q ps) =
    ground (arith, bytes_eq_iff k j, bytes_eq_iff i k, bytes_eq_iff i j, get-put k j p ps)

get-remove :
    (k j : Bytes) (ps : Particles) → get j (remove k ps) ≡ (if bytes_eq k j then none else get j ps)
unfolding get remove
get-remove k j leaf = ground arith
get-remove k j (child i q ps) =
    ground (arith, bytes_eq_iff k j, bytes_eq_iff i k, bytes_eq_iff i j, get-remove k j ps)

pub node_at-new : (keys : List Bytes) → node_at keys new_particle ≡ new_node
unfolding node_at seek get
node_at-new [] = refl
node_at-new (key ∷ keys) = refl

pub node_at-cons :
    (key : Bytes) (keys : List Bytes) (n : Node) (ps : Particles)
    → node_at (key ∷ keys) (particle n ps) ≡ node_at keys (or_new (get key ps))
unfolding node_at seek
node_at-cons key keys n ps = elim (Option-cases (get key ps)) [
  | inl nothing ↦ rw (nothing, node_at, seek) (sym (node_at-new keys))
  | inr (p, found) ↦ rw (found, node_at, seek) refl
]

-- The change is made at its path.
pub node_at-change_self :
    (keys : List Bytes) (f : Node → Node) (t : Particle)
    → node_at keys (change keys f t) ≡ f (node_at keys t)
unfolding change
node_at-change_self [] f (particle n ps) = unfold node_at seek in refl
node_at-change_self (key ∷ keys) f (particle n ps) =
    node_at-cons key keys n (put key (change keys f (or_new (get key ps))) ps)
    ∙ rw (get-put, (bytes_eq_iff key key).1 refl) (node_at-change_self keys f (or_new (get key ps)))
    ∙ ap f (sym (node_at-cons key keys n ps))

-- Every other path keeps its node.
pub node_at-change_other :
    (keys path : List Bytes) (f : Node → Node) (t : Particle)
    → path ≢ keys
    → node_at path (change keys f t) ≡ node_at path t
unfolding change
node_at-change_other [] [] f t other = absurd (other refl)
node_at-change_other [] (j ∷ path) f (particle n ps) other =
    node_at-cons j path (f n) ps ∙ sym (node_at-cons j path n ps)
node_at-change_other (key ∷ keys) [] f (particle n ps) other = unfold node_at seek in refl
node_at-change_other (key ∷ keys) (j ∷ path) f (particle n ps) other =
    node_at-cons j path n (put key (change keys f (or_new (get key ps))) ps)
    ∙ elim (Bool-cases (bytes_eq key j)) [
      | inl same ↦
          let here : key ≡ j = (bytes_eq_iff key j).0 same in
          rw (get-put, same)
            (node_at-change_other keys path f (or_new (get key ps)) (λ e. other (cc (here, e)))
              ∙ ap (λ k. node_at path (or_new (get k ps))) here)
      | inr apart ↦ rw (get-put, apart) refl
    ]
    ∙ sym (node_at-cons j path n ps)

-- What is seen of a node, where an empty one shows nothing.
module _ {V : Type 0} (seen : Node → V)
    (blank : (n : Node) → is_empty_node n ≡ true → seen n ≡ seen new_node) where
  -- A particle that `trim` drops held nothing.
  node_at-empty :
      (path : List Bytes) (p : Particle) → is_empty p ≡ true → seen (node_at path p) ≡ seen new_node
  unfolding is_empty get
  node_at-empty [] (particle n leaf) h = unfold node_at seek in blank n h
  node_at-empty (key ∷ path) (particle n leaf) h =
      ap seen (node_at-cons key path n leaf ∙ node_at-new path)
  node_at-empty path (particle n (child k p ps)) h = cc

  module _ (key : Bytes) (keys path : List Bytes) (f : Node → Node) (n : Node)
      (ps : Particles) where
    -- A trimmed child answers as the changed one.
    node_at-trimmed :
        (p : Particle)
        → get key ps ≡ some p
        → seen (node_at (key ∷ path) (change_trim (key ∷ keys) f (particle n ps)))
          ≡ seen (node_at path (change_trim keys f p))
    unfolding change_trim
    node_at-trimmed p found = elim (Bool-cases (is_empty (change_trim keys f p))) [
      | inl gone ↦
          rw (found, gone, change_trim)
            (ap seen (node_at-cons key path n (remove key ps))
              ∙ rw (get-remove, (bytes_eq_iff key key).1 refl)
                  (ap seen (node_at-new path)
                    ∙ sym (node_at-empty path (change_trim keys f p) gone)))
      | inr kept ↦
          rw (found, kept, change_trim)
            (ap seen (node_at-cons key path n (put key (change_trim keys f p) ps))
              ∙ rw (get-put, (bytes_eq_iff key key).1 refl) refl)
    ]

    node_at-beside :
        (j : Bytes)
        → bytes_eq key j ≡ false
        → node_at (j ∷ path) (change_trim (key ∷ keys) f (particle n ps))
          ≡ node_at (j ∷ path) (particle n ps)
    unfolding change_trim
    node_at-beside j apart = elim (Option-cases (get key ps)) [
      | inl nothing ↦ rw (nothing, change_trim) refl
      | inr (q, found) ↦ elim (Bool-cases (is_empty (change_trim keys f q))) [
        | inl gone ↦
            rw (found, gone, change_trim)
              (node_at-cons j path n (remove key ps)
                ∙ rw (get-remove, apart) (sym (node_at-cons j path n ps)))
        | inr kept ↦
            rw (found, kept, change_trim)
              (node_at-cons j path n (put key (change_trim keys f q) ps)
                ∙ rw (get-put, apart) (sym (node_at-cons j path n ps)))
      ]
    ]

  -- Where there is a particle at the keys, the change is seen there, also when the particle is trimmed.
  pub node_at-change_trim_self :
      (keys : List Bytes) (f : Node → Node) (t p : Particle)
      → seek keys t ≡ some p
      → seen (node_at keys (change_trim keys f t)) ≡ seen (f (node_at keys t))
  unfolding change_trim seek
  node_at-change_trim_self [] f (particle n ps) p e = unfold node_at in refl
  node_at-change_trim_self (key ∷ keys) f (particle n ps) p e = elim (Option-cases (get key ps)) [
    | inl nothing ↦ cc (rw (nothing, seek) at e)
    | inr (q, found) ↦
        node_at-trimmed key keys keys f n ps q found
        ∙ node_at-change_trim_self keys f q p (rw (found, seek) at e)
        ∙ ap (λ m. seen (f m))
            (sym (node_at-cons key keys n ps ∙ ap (λ o. node_at keys (or_new o)) found))
  ]

  -- Every other path shows what it showed, whether or not particles are trimmed.
  pub node_at-change_trim_other :
      (keys path : List Bytes) (f : Node → Node) (t : Particle)
      → path ≢ keys
      → seen (node_at path (change_trim keys f t)) ≡ seen (node_at path t)
  unfolding change_trim
  node_at-change_trim_other [] [] f t other = absurd (other refl)
  node_at-change_trim_other [] (j ∷ path) f (particle n ps) other =
      ap seen (node_at-cons j path (f n) ps ∙ sym (node_at-cons j path n ps))
  node_at-change_trim_other (key ∷ keys) [] f (particle n ps) other =
      unfold node_at seek in ground arith
  node_at-change_trim_other (key ∷ keys) (j ∷ path) f (particle n ps) other =
      elim (Bool-cases (bytes_eq key j)) [
        | inr apart ↦ ap seen (node_at-beside key keys path f n ps j apart)
        | inl same ↦
            let here : key ≡ j = (bytes_eq_iff key j).0 same in
            rw (← here) (elim (Option-cases (get key ps)) [
              | inl nothing ↦ rw (nothing, change_trim) refl
              | inr (q, found) ↦
                  node_at-trimmed key keys path f n ps q found
                  ∙ node_at-change_trim_other keys path f q (λ e. other (cc (here, e)))
                  ∙ ap seen
                      (sym (node_at-cons key path n ps ∙ ap (λ o. node_at path (or_new o)) found))
            ])
      ]
