-- ===== src/Common/Split.antt =====
-- `strings.Split` and `strings.Join` at a one-byte separator, and searches for a byte.
use Prim.Native.Nat.{ℕ, suc}
use mathlib.Core.Path.{◌≡◌, refl, ap, ◌∙◌}
use mathlib.Core.Logic.{◌≢◌, inl, inr}
use mathlib.Core.Bool.{Bool, false, ◌||◌}
use mathlib.Core.List.{List, [], ◌∷◌, ◌++◌}
use mathlib.Core.Option.{Option, none, some}
use native.Mathlib.Omega.{arith}
use mqtt_protocol_v.Common.Tests.{◌==◌, if◌then◌else◌, Bool-cases}
use mqtt_protocol_v.Common.Equality.{Bytes}

-- `strings.ContainsRune` of an ASCII byte
unfoldable pub contains : ℕ → Bytes → Bool
contains c [] = false
contains c (b ∷ bs) = b == c || contains c bs

-- `strings.IndexRune` of an ASCII byte; `none` is -1
unfoldable pub index_of : ℕ → Bytes → Option ℕ
index_of c [] = none
index_of c (b ∷ bs) =
    let later = index_of c bs in
    if b == c then some 0 else (elim later [ none ↦ none | some i ↦ some (suc i) ])

-- one more byte in front of the first part
abbrev onto : ℕ → List Bytes → List Bytes
onto b [] = (b ∷ []) ∷ []
onto b (part ∷ parts) = (b ∷ part) ∷ parts

-- `strings.Split`
unfoldable pub split : ℕ → Bytes → List Bytes
split sep [] = [] ∷ []
split sep (b ∷ bs) = let rest = split sep bs in if b == sep then [] ∷ rest else onto b rest

-- `strings.Join`
unfoldable pub join : ℕ → List Bytes → Bytes
join sep [] = []
join sep (part ∷ []) = part
join sep (part ∷ next ∷ parts) = part ++ sep ∷ join sep (next ∷ parts)

pub split-no_sep : (sep : ℕ) (bs : Bytes) → contains sep bs ≡ false → split sep bs ≡ bs ∷ []
unfolding split contains
split-no_sep sep [] h = refl
split-no_sep sep (b ∷ bs) h = ground (arith, split-no_sep sep bs)

-- A part that holds no separator is split off.
pub split-append :
    (sep : ℕ) (part rest : Bytes)
    → contains sep part ≡ false
    → split sep (part ++ sep ∷ rest) ≡ part ∷ split sep rest
unfolding split contains
split-append sep [] rest h = ground arith
split-append sep (b ∷ part) rest h = ground (arith, split-append sep part rest)

onto-append :
    (b : ℕ) (parts more : List Bytes) → parts ≢ [] → onto b (parts ++ more) ≡ onto b parts ++ more
onto-append b [] more h = absurd (h refl)
onto-append b (part ∷ parts) more h = refl

pub split_some : (sep : ℕ) (bs : Bytes) → split sep bs ≢ []
unfolding split
split_some sep [] = λ e. cc
split_some sep (b ∷ bs) = elim (Bool-cases (b == sep)) [
  | inl cut ↦ rw cut (λ e. cc)
  | inr same ↦ rw same (onto_some b (split sep bs))
]
  where
    onto_some : (b : ℕ) (parts : List Bytes) → onto b parts ≢ []
    onto_some b [] = λ e. cc
    onto_some b (part ∷ parts) = λ e. cc

-- What stands before and after a separator is split on its own.
pub split-sep :
    (sep : ℕ) (front rest : Bytes)
    → split sep (front ++ sep ∷ rest) ≡ split sep front ++ split sep rest
unfolding split
split-sep sep [] rest = ground arith
split-sep sep (b ∷ front) rest = elim (Bool-cases (b == sep)) [
  | inl cut ↦ rw cut (ap (λ t. [] ∷ t) (split-sep sep front rest))
  | inr same ↦ rw same (
      ap (onto b) (split-sep sep front rest)
      ∙ onto-append b (split sep front) (split sep rest) (split_some sep front))
]
