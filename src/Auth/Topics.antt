-- ===== src/Auth/Topics.antt =====
-- What `MatchTopic` accepts.
use mqtt_protocol_v.Common.{◌≡◌, refl, true, List, [], ◌∷◌, ◌++◌, Bool-cases, inl, inr}
use mqtt_protocol_v.Common.Equality.{Bytes, bytes_eq}
use mqtt_protocol_v.Common.Split.{split, split-sep}
use mqtt_protocol_v.Auth.{match_parts, match_topic, filter_matches, plus, hash}

parts_below :
    (fs ts us : List Bytes) (e e' : List Bytes)
    → (match_parts fs ts e).1 ≡ true
    → (match_parts fs (ts ++ us) e').1 ≡ true
unfolding match_parts
parts_below [] ts us e e' h = refl
parts_below (f ∷ fs) [] us e e' h = cc
parts_below (f ∷ fs) (t ∷ ts) us e e' h = elim (Bool-cases (bytes_eq f plus)) [
  | inl one ↦ rw one (parts_below fs ts us _ _ (rw one at h))
  | inr literal ↦ elim (Bool-cases (bytes_eq f hash)) [
    | inl rest ↦ rw (literal, rest) refl
    | inr part ↦ elim (Bool-cases (bytes_eq f t)) [
      | inl same ↦
          rw (literal, part, same) (parts_below fs ts us _ _ (rw (literal, part, same) at h))
      | inr other ↦ cc (rw (literal, part, other) at h)
    ]
  ]
]

-- A filter that matches a topic, whether it ends in `#` or not, matches every topic below it.
pub filter_matches_below :
    (filter topic below : Bytes)
    → filter_matches filter topic ≡ true
    → filter_matches filter (topic ++ b'/' ∷ below) ≡ true
unfolding match_topic
filter_matches_below filter topic below h =
    rw (split-sep b'/' topic below, filter_matches, match_topic)
      (parts_below (split b'/' filter) (split b'/' topic) _ [] [] h)
