-- ===== src/Modules/WildcardTokens/Access.antt =====
-- Which subscriptions the token hook lets through, and for how long.
use mqtt_protocol_v.Common.{
  ◌≡◌, ◌↔◌, ◌⊎◌, Bool, true, false, not, ◌||◌, none, some, List, [], ◌∷◌, arith,
}
use mqtt_protocol_v.Common.Equality.{Bytes, bytes_eq_iff, bytes_instance, beq_refl}
use mqtt_protocol_v.Common.Map
use mqtt_protocol_v.Common.Map.{lookup-insert, lookup-delete}
use mqtt_protocol_v.Packets.Packet.{Packet}
use mqtt_protocol_v.Modules.WildcardTokens.{
  Crypto, AreTexts, TokenHook, allows, generate_token, has_wildcard, on_acl_check, on_subscribe,
  on_subscribed, on_disconnect, token_of,
}
use mqtt_protocol_v.Modules.WildcardTokens.Tokens.{verify_token-generate_token}

-- A pattern stands in a list.
abbrev pub In : Bytes → List Bytes → Type 0
In topic [] = ⊥
In topic (pattern ∷ rest) = (pattern ≡ topic) ⊎ In topic rest

allows-In :
    (patterns : List Bytes) (topic : Bytes)
    → (allows (some patterns) topic ≡ true) ↔ In topic patterns
unfolding allows
allows-In [] topic = (λ e. cc, λ h. absurd h)
allows-In (p ∷ ps) topic = ground (arith, allows-In ps topic, bytes_eq_iff p topic)

token_stored :
    (c : Crypto) (h : TokenHook) (id : Bytes) (pk : Packet) (patterns : List Bytes)
    → AreTexts patterns
    → token_of pk.properties.user ≡ some (generate_token c h.shared_secret patterns)
    → Map.lookup id (on_subscribe c h id pk).active_tokens ≡ some patterns
unfolding on_subscribe
token_stored c h id pk patterns texts e =
    rw (e, on_subscribe)
      (rw (verify_token-generate_token c h.shared_secret patterns texts)
        (rw lookup-insert (rw (beq_refl id))))

-- A SUBSCRIBE that carries a token of the broker, its patterns valid UTF-8, lets its client, whichever it is, subscribe to a
-- filter with a wildcard exactly when the filter is one of the token's patterns, letter for letter.
pub acl-on_subscribe :
    (c : Crypto) (h : TokenHook) (id : Bytes) (pk : Packet) (patterns : List Bytes) (topic : Bytes)
    → AreTexts patterns
    → token_of pk.properties.user ≡ some (generate_token c h.shared_secret patterns)
    → has_wildcard topic ≡ true
    → (on_acl_check (on_subscribe c h id pk) id topic false ≡ true) ↔ In topic patterns
unfolding on_acl_check
acl-on_subscribe c h id pk patterns topic texts e wild =
    rw (wild, token_stored c h id pk patterns texts e) (allows-In patterns topic)

cleared : (h : TokenHook) (id : Bytes) → Map.lookup id (Map.delete id h.active_tokens) ≡ none
cleared h id = rw lookup-delete (rw (beq_refl id))

-- Once its subscription has been processed or it has left, a client may subscribe to exactly the
-- filters without a wildcard; publishing is always allowed.
pub acl_cleared :
    (h : TokenHook) (id topic : Bytes) (write : Bool)
    → (on_acl_check (on_subscribed h id) id topic write ≡ (write || not (has_wildcard topic)))
      × (on_acl_check (on_disconnect h id) id topic write ≡ (write || not (has_wildcard topic)))
unfolding on_acl_check allows on_subscribed on_disconnect
acl_cleared h id topic write = rw (cleared h id) (ground arith, ground arith)
