-- ===== src/Modules/WildcardTokens/Chain.antt =====
-- The token hook among the broker's hooks.
use mqtt_protocol_v.Common.{
  ◌≡◌, ◌↔◌, ◌⊎◌, inl, inr, refl, Bool, true, false, some, List, [], ◌∷◌, ◌++◌, arith,
}
use mqtt_protocol_v.Common.Equality.{Bytes}
use mqtt_protocol_v.Packets.Packet.{Packet}
use mqtt_protocol_v.Auth.AllowAll.{allow_hook}
use mqtt_protocol_v.Server.Hooks.{Method, Hook, hook_base, on_acl_check}
use mqtt_protocol_v.Modules.WildcardTokens
use mqtt_protocol_v.Modules.WildcardTokens.{
  Crypto, AreTexts, TokenHook, generate_token, has_wildcard, on_subscribe, token_of,
}
use mqtt_protocol_v.Modules.WildcardTokens.Access.{In, acl-on_subscribe}

-- `Provides`, of the methods whose answers the broker uses
unfoldable pub token_provides : Method → Bool
token_provides Method.packet_encode = true
token_provides Method.subscribe = true
token_provides Method.acl_check = true
token_provides method = false

-- `WildcardTokenHook` in a state, as the broker calls it
unfoldable pub token_hook : {S C : Type 0} → Crypto → TokenHook → (C → Bytes) → Hook S C
unfolding token_provides
token_hook c h id_of = record hook_base {
  provides = token_provides;
  packet_encode = λ cl pk. WildcardTokens.on_packet_encode c h (id_of cl) pk;
  acl_check = λ cl topic write. WildcardTokens.on_acl_check h (id_of cl) topic write;
}

module _ {S C : Type 0} where
  -- hooks before, one hook, and hooks behind it
  acl_between :
      (before after : List (Hook S C)) (hook : Hook S C) (cl : C) (topic : Bytes) (write : Bool)
      → hook.provides Method.acl_check ≡ true
      → (on_acl_check (before ++ (hook ∷ after)) cl topic write ≡ true) ↔ (
          (hook.acl_check cl topic write ≡ true)
          ⊎ (on_acl_check before cl topic write ≡ true)
          ⊎ (on_acl_check after cl topic write ≡ true))
  unfolding on_acl_check
  acl_between [] after hook cl topic write there = ground arith
  acl_between (first ∷ before) after hook cl topic write there =
      ground (arith, acl_between before after hook cl topic write there)

  -- After a SUBSCRIBE with a token of the broker, its patterns valid UTF-8, the access check of the
  -- broker grants the client a subscription to a filter with a wildcard exactly when the filter is
  -- one of the token's patterns, letter for letter, or another of the attached hooks grants it.
  -- With the AllowHook before them, which broker/cmd/main.go always attaches, it grants any such
  -- filter.
  pub acl_among_hooks :
      (c : Crypto) (h : TokenHook) (id_of : C → Bytes) (cl : C) (pk : Packet)
      (patterns : List Bytes) (topic : Bytes) (before after : List (Hook S C))
      → AreTexts patterns
      → token_of pk.properties.user ≡ some (generate_token c h.shared_secret patterns)
      → has_wildcard topic ≡ true
      → let hook = token_hook c (on_subscribe c h (id_of cl) pk) id_of in
        ((on_acl_check (before ++ (hook ∷ after)) cl topic false ≡ true) ↔ (
          In topic patterns
          ⊎ (on_acl_check before cl topic false ≡ true)
          ⊎ (on_acl_check after cl topic false ≡ true)))
        × (on_acl_check (allow_hook ∷ (before ++ (hook ∷ after))) cl topic false ≡ true)
  unfolding token_hook allow_hook on_acl_check
  acl_among_hooks c h id_of cl pk patterns topic before after texts token wild =
      let hook = token_hook c (on_subscribe c h (id_of cl) pk) id_of in
      let (to, from) = acl_between before after hook cl topic false refl in
      let (lists, allows) = acl-on_subscribe c h (id_of cl) pk patterns topic texts token wild in
      (
        (
          λ e. elim (to e) [ inl own ↦ inl (lists own) | inr others ↦ inr others ],
          λ e. elim e [ inl listed ↦ from (inl (allows listed)) | inr others ↦ from (inr others) ],
        ),
        refl,
      )
