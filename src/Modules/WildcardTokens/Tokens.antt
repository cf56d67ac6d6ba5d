-- ===== src/Modules/WildcardTokens/Tokens.antt =====
-- Tokens that the broker signs verify, and what verifies was signed.
use mqtt_protocol_v.Common.{
  ◌≡◌, refl, ap, ◌∙◌, Option, none, some, List, [], ◌∷◌, Option-cases, Bool-cases, inl, inr,
}
use mqtt_protocol_v.Common.Equality.{Bytes, bytes_eq, bytes_eq_iff}
use mqtt_protocol_v.Common.Split.{split, split-append, split-no_sep}
use mqtt_protocol_v.Modules.WildcardTokens.{
  Crypto, AreTexts, allowed, generate_token, verify_token, two_parts, parts_verdict, signed_verdict,
}

module _ (c : Crypto) where
  open c use {hmac, encode64, decode64, marshal, unmarshal}

  token_parts :
      (secret : Bytes) (patterns : List Bytes)
      → split b'.' (generate_token c secret patterns)
        ≡ encode64 (marshal patterns) ∷ encode64 (hmac secret (marshal patterns)) ∷ []
  unfolding generate_token
  token_parts secret patterns =
      split-append b'.' _ _ (c.encode64_no_dot (marshal patterns))
      ∙ ap (λ t. encode64 (marshal patterns) ∷ t) (split-no_sep b'.' _ (c.encode64_no_dot _))

  -- A token whose patterns are valid UTF-8 verifies under the secret it was signed with, and grants
  -- exactly its patterns.
  pub verify_token-generate_token :
      (secret : Bytes) (patterns : List Bytes)
      → AreTexts patterns
      → verify_token c secret (generate_token c secret patterns) ≡ allowed patterns
  unfolding verify_token
  verify_token-generate_token secret patterns texts = rw (
    token_parts secret patterns,
    c.decode64-encode64 (marshal patterns),
    c.decode64-encode64 (hmac secret (marshal patterns)),
    (bytes_eq_iff (hmac secret (marshal patterns)) _).1 refl,
    c.unmarshal-marshal patterns texts,
  )

  signed_sound :
      (secret text : Bytes) (o : Option Bytes) (patterns : List Bytes)
      → signed_verdict c secret text o ≡ allowed patterns
      → (o ≡ some (hmac secret text)) × (unmarshal text ≡ some patterns)
  unfolding signed_verdict
  signed_sound secret text none patterns e = cc
  signed_sound secret text (some mac) patterns e =
      elim (Bool-cases (bytes_eq mac (hmac secret text))) [
        | inl same ↦ elim (Option-cases (unmarshal text)) [
          | inl bad ↦ cc (rw (same, bad) at e)
          | inr (found, read) ↦
              (ap some ((bytes_eq_iff mac _).0 same), cc (read, rw (same, read) at e))
        ]
        | inr other ↦ cc (rw other at e)
      ]

  parts_sound :
      (secret signature : Bytes) (o : Option Bytes) (patterns : List Bytes)
      → parts_verdict c secret o signature ≡ allowed patterns
      → (text : Bytes) × (o ≡ some text)
        × (decode64 signature ≡ some (hmac secret text))
        × (unmarshal text ≡ some patterns)
  unfolding parts_verdict
  parts_sound secret signature none patterns e = cc
  parts_sound secret signature (some text) patterns e =
      let (signed, read) = signed_sound secret text (decode64 signature) patterns e in
      (text, refl, signed, read)

  two_sound :
      (secret : Bytes) (parts : List Bytes) (patterns : List Bytes)
      → two_parts c secret parts ≡ allowed patterns
      → (payload signature text : Bytes) × (parts ≡ payload ∷ signature ∷ [])
        × (decode64 payload ≡ some text)
        × (decode64 signature ≡ some (hmac secret text))
        × (unmarshal text ≡ some patterns)
  unfolding two_parts
  two_sound secret [] patterns e = cc
  two_sound secret (a ∷ []) patterns e = cc
  two_sound secret (payload ∷ signature ∷ []) patterns e =
      let (text, decoded, signed, read) =
        parts_sound secret signature (decode64 payload) patterns e in
      (payload, signature, text, refl, decoded, signed, read)
  two_sound secret (a ∷ b ∷ d ∷ parts) patterns e = cc

  -- A token that verifies is two base64 parts, of which the second decodes to the MAC of what the
  -- first decodes to, and the patterns granted are the ones written there.
  pub verify_token_sound :
      (secret token : Bytes) (patterns : List Bytes)
      → verify_token c secret token ≡ allowed patterns
      → (payload signature text : Bytes) × (split b'.' token ≡ payload ∷ signature ∷ [])
        × (decode64 payload ≡ some text)
        × (decode64 signature ≡ some (hmac secret text))
        × (unmarshal text ≡ some patterns)
  unfolding verify_token
  verify_token_sound secret token patterns e = two_sound secret (split b'.' token) patterns e
