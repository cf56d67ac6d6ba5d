-- ===== src/Topics/Levels/Splitting.antt =====
-- The levels that `isolateParticle` finds are the parts that `strings.Split` makes at the slashes.
use mqtt_protocol_v.Common.{
  ℕ, zero, suc, ◌+◌, ◌≤◌, ◌<◌, ◌≡◌, refl, sym, ap, ◌∙◌, Bool, true, false, none, some, List, [],
  ◌∷◌, arith, ◌==◌, length, take, drop, Bool-cases, Option-cases, inl, inr,
}
use mqtt_protocol_v.Common.Equality.{Bytes}
use mqtt_protocol_v.Common.Split.{index_of, split}
use mqtt_protocol_v.Topics.Levels.{isolate, isolate_particle, add_key, keys_from, levels}
use mqtt_protocol_v.Common.Split.{split_some}
use mqtt_protocol_v.Common.{◌≢◌}
use mqtt_protocol_v.Common.{ltb}

-- the level at a depth, the last one where there are fewer, and whether more follow
abbrev pub level_at : List Bytes → ℕ → Bytes × Bool
level_at [] d = ([], false)
level_at (part ∷ []) d = (part, false)
level_at (part ∷ next ∷ parts) zero = (part, true)
level_at (part ∷ next ∷ parts) (suc d) = level_at (next ∷ parts) d

split_whole : (c : ℕ) (s : Bytes) → index_of c s ≡ none → split c s ≡ s ∷ []
unfolding index_of split
split_whole c [] e = refl
split_whole c (b ∷ s) e = elim (Bool-cases (b == c)) [
  | inl here ↦ cc (rw here at e)
  | inr not_here ↦ elim (Option-cases (index_of c s)) [
    | inl later ↦ rw (not_here, split_whole c s later) refl
    | inr (i, later) ↦ cc (rw (not_here, later) at e)
  ]
]

split_first :
    (c : ℕ) (s : Bytes) (i : ℕ)
    → index_of c s ≡ some i
    → split c s ≡ take i s ∷ split c (drop (suc i) s)
unfolding index_of split
split_first c [] i e = cc
split_first c (b ∷ s) i e = elim (Bool-cases (b == c)) [
  | inl here ↦ let first : 0 ≡ i = cc (rw here at e) in rw (here, ← first) refl
  | inr not_here ↦ elim (Option-cases (index_of c s)) [
    | inl later ↦ cc (rw (not_here, later) at e)
    | inr (j, later) ↦
        let next : suc j ≡ i = cc (rw (not_here, later) at e) in
        rw (not_here, ← next, split_first c s j later) refl
  ]
]

shape {ℓ} : {A : Type ℓ} (l : List A) → l ≢ [] → (x : A) × (xs : List A) × (l ≡ x ∷ xs)
shape [] h = absurd (h refl)
shape (x ∷ xs) h = (x, xs, refl)

-- `isolateParticle` finds the part at a depth, and whether more follow.
isolate-split : (d : ℕ) (s : Bytes) → isolate d s (index_of b'/' s) ≡ level_at (split b'/' s) d
unfolding isolate
isolate-split zero s = elim (Option-cases (index_of b'/' s)) [
  | inl alone ↦ rw (alone, split_whole b'/' s alone) refl
  | inr (i, found) ↦
      let (next, parts, more) = shape (split b'/' (drop (suc i) s)) (split_some b'/' _) in
      rw (found, split_first b'/' s i found, more) refl
]
isolate-split (suc d) s = elim (Option-cases (index_of b'/' s)) [
  | inl alone ↦ rw (alone, split_whole b'/' s alone) refl
  | inr (i, found) ↦
      let rest = drop (suc i) s in
      let (next, parts, more) = shape (split b'/' rest) (split_some b'/' _) in
      rw (found, split_first b'/' s i found, more) (isolate-split d rest ∙ rw more refl)
]

isolate_particle-split :
    (topic : Bytes) (d : ℕ) → isolate_particle topic d ≡ level_at (split b'/' topic) d
unfolding isolate_particle
isolate_particle-split topic d = isolate-split d topic

level_below :
    (parts : List Bytes) (d : ℕ)
    → d < length parts
    → (key : Bytes) × (rest : List Bytes) × (drop d parts ≡ key ∷ rest)
      × (level_at parts d ≡ (key, ltb (d + 1) (length parts)))
level_below [] d h = absurd (omega arith)
level_below (part ∷ []) zero h = (part, [], refl, refl)
level_below (part ∷ []) (suc d) h = absurd (omega arith)
level_below (part ∷ next ∷ parts) zero h = (part, next ∷ parts, refl, ground arith)
level_below (part ∷ next ∷ parts) (suc d) h =
    let (key, rest, dropped, level) = level_below (next ∷ parts) d (omega arith) in
    (key, rest, dropped, level ∙ ground arith)

drop_rest :
    (d : ℕ) (parts : List Bytes) (key : Bytes) (rest : List Bytes)
    → drop d parts ≡ key ∷ rest
    → (drop (d + 1) parts ≡ rest) × (length parts ≡ d + 1 + length rest)
drop_rest zero [] key rest e = cc
drop_rest zero (p ∷ parts) key rest e = ground arith
drop_rest (suc d) [] key rest e = cc
drop_rest (suc d) (p ∷ parts) key rest e = ground (arith, drop_rest d parts key rest e)

nothing_left : (parts : List Bytes) → length parts ≡ 0 → parts ≡ []
nothing_left [] h = refl
nothing_left (p ∷ parts) h = absurd (omega arith)

keys-split :
    (fuel : ℕ) (topic : Bytes) (d : ℕ)
    → d < length (split b'/' topic)
    → length (split b'/' topic) ≤ d + fuel
    → keys_from fuel topic d ≡ drop d (split b'/' topic)
unfolding keys_from
keys-split zero topic d h f = absurd (omega arith)
keys-split (suc fuel) topic d h f =
    let (key, rest, dropped, level) = level_below (split b'/' topic) d h in
    let (after, count) = drop_rest d (split b'/' topic) key rest dropped in
    let found = isolate_particle-split topic d ∙ level in
    elim (Bool-cases (ltb (d + 1) (length (split b'/' topic)))) [
      | inl more ↦
          ap (λ r. add_key r (keys_from fuel topic (d + 1))) (found ∙ ap (λ b. (key, b)) more)
          ∙ ap (λ t. key ∷ t) (keys-split fuel topic (d + 1) (ground arith) (omega arith) ∙ after)
          ∙ sym dropped
      | inr last ↦
          ap (λ r. add_key r (keys_from fuel topic (d + 1))) (found ∙ ap (λ b. (key, b)) last)
          ∙ ap (λ t. key ∷ t) (sym (nothing_left rest (ground arith)))
          ∙ sym dropped
    ]

length-split_le : (c : ℕ) (s : Bytes) → length (split c s) ≤ length s + 1
unfolding split
length-split_le c [] = omega arith
length-split_le c (b ∷ s) =
    let (part, parts, e) = shape (split c s) (split_some c s) in
    let same_length = ap length e in
    let shorter = length-split_le c s in
    elim (Bool-cases (b == c)) [
      | inl cut ↦ rw (cut, e) (omega arith)
      | inr same ↦ rw (same, e) (omega arith)
    ]

-- The keys that the loops take from level `d` on are the parts between the slashes from there on, where
-- there is a level `d`.
pub levels-split :
    (topic : Bytes) (d : ℕ)
    → d < length (split b'/' topic)
    → levels topic d ≡ drop d (split b'/' topic)
unfolding levels
levels-split topic d h =
    keys-split (length topic + 1) topic d h (omega (arith, length-split_le b'/' topic))

length_positive : (parts : List Bytes) → parts ≢ [] → 0 < length parts
length_positive [] h = absurd (h refl)
length_positive (p ∷ parts) h = omega arith

-- From its first level on, a topic gives all its parts.
pub levels_whole : (topic : Bytes) → levels topic 0 ≡ split b'/' topic
levels_whole topic =
    levels-split topic 0 (length_positive (split b'/' topic) (split_some b'/' topic))
