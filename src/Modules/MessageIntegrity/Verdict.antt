-- ===== src/Modules/MessageIntegrity/Verdict.antt =====
-- Which packets the integrity hook lets pass.
use mqtt_protocol_v.Common.{
  ◌+◌, ◌≡◌, ◌↔◌, refl, true, false, Option, none, some, ◌++◌, arith, Option-cases, Bool-cases, inl,
  inr, ◌⊎◌, ◌∙◌, ap,
}
use mqtt_protocol_v.Common.Equality.{Bytes, bytes_eq_iff}
use mqtt_protocol_v.Packets.Packet.{Packet}
use mqtt_protocol_v.Packets.Properties.{Properties}
use mqtt_protocol_v.Modules.MessageIntegrity.{
  IntegrityHook, is_probe, signature_of, mac_matches, check_signature, on_publish,
}

module _ (hmac : Bytes → Bytes → Bytes) (decode64 : Bytes → Option Bytes) where
  -- The signature that a packet carries is what the hook's configuration asks for.
  abbrev pub IsAcceptable : IntegrityHook → Packet → Option Bytes → Type 0
  IsAcceptable h pk none = h.config.require_signature ≡ false
  IsAcceptable h pk (some val) =
      (h.config.verify_signature ≡ false)
      ⊎ (decode64 val ≡ some (hmac h.config.shared_secret (pk.topic_name ++ pk.payload)))

  mac_matches_sound :
      (secret : Bytes) (pk : Packet) (val : Bytes)
      → mac_matches hmac decode64 secret pk val ≡ true
      → decode64 val ≡ some (hmac secret (pk.topic_name ++ pk.payload))
  unfolding mac_matches
  mac_matches_sound secret pk val e = elim (Option-cases (decode64 val)) [
    | inl bad ↦ cc (rw (bad, mac_matches) at e)
    | inr (mac, read) ↦ read ∙ ap some ((bytes_eq_iff mac _).0 (rw (read, mac_matches) at e))
  ]

  mac_matches_complete :
      (secret : Bytes) (pk : Packet) (val : Bytes)
      → decode64 val ≡ some (hmac secret (pk.topic_name ++ pk.payload))
      → mac_matches hmac decode64 secret pk val ≡ true
  unfolding mac_matches
  mac_matches_complete secret pk val e = rw (e, mac_matches) ((bytes_eq_iff _ _).1 refl)

  check_passes :
      (h : IntegrityHook) (pk : Packet) (o : Option Bytes)
      → ((check_signature hmac decode64 h pk o).1 ≡ true) ↔ IsAcceptable h pk o
  unfolding check_signature
  check_passes h pk none = ground arith
  check_passes h pk (some val) = elim (Bool-cases h.config.verify_signature) [
    | inl verify ↦ (
      λ e. inr (mac_matches_sound h.config.shared_secret pk val (ground arith)),
      elim [
        | inl off ↦ cc (off, verify)
        | inr good ↦ ground (arith, mac_matches_complete h.config.shared_secret pk val good)
      ],
    )
    | inr off ↦ (λ e. inl off, λ a. ground arith)
  ]

  -- A client that is not the probe has a packet pass exactly when: it carries no signature and none is
  -- required, or its first signature, where it is to be verified, decodes to the MAC of the topic
  -- followed by the payload.
  pub on_publish-IsAcceptable :
      (h : IntegrityHook) (id : Bytes) (pk : Packet)
      → is_probe id ≡ false
      → ((on_publish hmac decode64 h id pk).1 ≡ true)
        ↔ IsAcceptable h pk (signature_of pk.properties.user)
  unfolding on_publish
  on_publish-IsAcceptable h id pk other = rw other (
      check_passes (record h { packets_checked = h.packets_checked + 1 }) pk
        (signature_of pk.properties.user))

  same_match :
      (secret : Bytes) (pk pk' : Packet) (val : Bytes)
      → pk.topic_name ++ pk.payload ≡ pk'.topic_name ++ pk'.payload
      → mac_matches hmac decode64 secret pk val ≡ mac_matches hmac decode64 secret pk' val
  unfolding mac_matches
  same_match secret pk pk' val bytes = rw (bytes, mac_matches)

  same_check :
      (h : IntegrityHook) (pk pk' : Packet) (o : Option Bytes)
      → pk.topic_name ++ pk.payload ≡ pk'.topic_name ++ pk'.payload
      → check_signature hmac decode64 h pk o ≡ check_signature hmac decode64 h pk' o
  unfolding check_signature
  same_check h pk pk' none bytes = refl
  same_check h pk pk' (some val) bytes = rw (same_match h.config.shared_secret pk pk' val bytes)

  -- The MAC does not see where the topic ends: two packets with the same properties whose topic and
  -- payload make the same bytes in a row get the same verdict and leave the same counters, so a
  -- signed packet still verifies when bytes are moved from its payload to its topic.
  pub boundary_unsigned :
      (h : IntegrityHook) (id : Bytes) (pk pk' : Packet)
      → pk.properties ≡ pk'.properties
      → pk.topic_name ++ pk.payload ≡ pk'.topic_name ++ pk'.payload
      → on_publish hmac decode64 h id pk ≡ on_publish hmac decode64 h id pk'
  unfolding on_publish
  boundary_unsigned h id pk pk' same bytes =
      let h' = record h { packets_checked = h.packets_checked + 1 } in
      rw (ap (λ (p : Properties). p.user) same)
        (rw (same_check h' pk pk' (signature_of pk'.properties.user) bytes))
