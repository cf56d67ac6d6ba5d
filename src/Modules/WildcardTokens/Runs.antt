-- ===== src/Modules/WildcardTokens/Runs.antt =====
-- Runs of the token hook with toy encodings that satisfy the laws, and its theorems there.
use mqtt_protocol_v.Common.{
  ℕ, zero, suc, ◌+◌, ◌-◌, ◌≡◌, ◌↔◌, ◌⊎◌, refl, ap, ◌∙◌, true, false, some, List, [], ◌∷◌, ◌++◌,
  arith,
}
use mqtt_protocol_v.Common.Equality.{Bytes, bytes_eq, codes}
use mqtt_protocol_v.Common.Split.{contains, split}
use mqtt_protocol_v.Packets.Codec.{utf8_valid}
use mqtt_protocol_v.Packets.Packet.{Packet, no_packet}
use mqtt_protocol_v.Modules.WildcardTokens.{
  Crypto, TokenHook, allowed, token_key, token_of, generate_token, verify_token, on_subscribe,
}
use mqtt_protocol_v.Modules.WildcardTokens.Tokens.{verify_token-generate_token, verify_token_sound}
use mqtt_protocol_v.Modules.WildcardTokens.Access.{In}
use mqtt_protocol_v.Modules.WildcardTokens.Chain.{token_hook, acl_among_hooks}
use mqtt_protocol_v.Auth.AllowAll.{allow_hook}
use mqtt_protocol_v.Server.Hooks.{hook_base, on_acl_check}

-- every byte moved past the dot
abbrev shift : Bytes → Bytes
shift [] = []
shift (b ∷ bs) = (b + 47) ∷ shift bs

abbrev unshift : Bytes → Bytes
unshift [] = []
unshift (b ∷ bs) = (b - 47) ∷ unshift bs

unshift-shift : (bs : Bytes) → unshift (shift bs) ≡ bs
unshift-shift [] = refl
unshift-shift (b ∷ bs) = ground (arith, unshift-shift bs)

shift_no_dot : (bs : Bytes) → contains b'.' (shift bs) ≡ false
unfolding contains
shift_no_dot [] = refl
shift_no_dot (b ∷ bs) = ground (arith, shift_no_dot bs)

-- lists of byte strings, each with a zero at its end
abbrev raised : Bytes → Bytes → Bytes
raised [] rest = 0 ∷ rest
raised (b ∷ bs) rest = suc b ∷ raised bs rest

abbrev marshal : List Bytes → Bytes
marshal [] = []
marshal (p ∷ ps) = raised p (marshal ps)

abbrev onto : ℕ → List Bytes → List Bytes
onto b [] = (b ∷ []) ∷ []
onto b (p ∷ ps) = (b ∷ p) ∷ ps

abbrev unmarshal : Bytes → List Bytes
unmarshal [] = []
unmarshal (zero ∷ bs) = [] ∷ unmarshal bs
unmarshal (suc b ∷ bs) = onto b (unmarshal bs)

unmarshal-raised : (p rest : Bytes) → unmarshal (raised p rest) ≡ p ∷ unmarshal rest
unmarshal-raised [] rest = refl
unmarshal-raised (b ∷ p) rest = ap (onto b) (unmarshal-raised p rest)

unmarshal-marshal : (ps : List Bytes) → unmarshal (marshal ps) ≡ ps
unmarshal-marshal [] = refl
unmarshal-marshal (p ∷ ps) =
    unmarshal-raised p (marshal ps) ∙ ap (λ t. p ∷ t) (unmarshal-marshal ps)

abbrev toy : Crypto
toy = record {
  hmac = λ secret message. secret ++ message;
  encode64 = shift;
  decode64 = λ b. some (unshift b);
  marshal = marshal;
  unmarshal = λ b. some (unmarshal b);
  decode64-encode64 = λ b. ap some (unshift-shift b);
  encode64_no_dot = shift_no_dot;
  unmarshal-marshal = λ ps texts. ap some (unmarshal-marshal ps);
}

abbrev key : Bytes
key = codes "key"

abbrev patterns : List Bytes
patterns = codes "a/#" ∷ []

abbrev hook : TokenHook
hook = record { shared_secret = key; permissions = []; active_tokens = [] }

-- a SUBSCRIBE with the token
abbrev subscribe : Packet
subscribe = record no_packet {
  properties = record (no_packet.properties) {
    user = record { key = token_key; val = generate_token toy key patterns } ∷ [];
  };
}

verify_token-generate_token_example :
    verify_token toy key (generate_token toy key patterns) ≡ allowed patterns
unfolding utf8_valid
verify_token-generate_token_example = verify_token-generate_token toy key patterns (refl, tt)

verify_token_sound_example :
    (payload signature text : Bytes) × (split b'.' (generate_token toy key patterns)
      ≡ payload ∷ signature ∷ [])
    × (some (unshift payload) ≡ some text)
    × (some (unshift signature) ≡ some (key ++ text))
    × (some (unmarshal text) ≡ some patterns)
verify_token_sound_example =
    verify_token_sound toy key (generate_token toy key patterns) patterns
      verify_token-generate_token_example

acl_among_hooks_example :
    let mine =
      token_hook {S = ℕ} {C = Bytes} toy (on_subscribe toy hook (codes "c") subscribe) (λ c. c) in
    ((on_acl_check (mine ∷ hook_base ∷ []) (codes "c") (codes "a/#") false ≡ true) ↔ (
      In (codes "a/#") patterns
      ⊎ (on_acl_check {S = ℕ} {C = Bytes} [] (codes "c") (codes "a/#") false ≡ true)
      ⊎ (on_acl_check {S = ℕ} {C = Bytes} (hook_base ∷ []) (codes "c") (codes "a/#") false ≡ true)))
    × (on_acl_check (allow_hook ∷ mine ∷ hook_base ∷ []) (codes "c") (codes "a/#") false ≡ true)
unfolding contains token_of bytes_eq utf8_valid
acl_among_hooks_example =
    acl_among_hooks {S = ℕ} {C = Bytes} toy hook (λ c. c) (codes "c") subscribe patterns
      (codes "a/#") [] (hook_base ∷ []) (refl, tt) refl refl
