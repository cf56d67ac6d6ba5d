-- ===== src/Modules/WildcardTokens.antt =====
-- broker/modules/security/wildcard_tokens.go: signed tokens for wildcard subscriptions. The record
-- `Crypto` stands for HMAC-SHA256, base64 and JSON, with what the code relies on as laws.
pub mod Tokens
pub mod Access
pub mod Chain
mod Runs
use mqtt_protocol_v.Common.{
  ℕ, All, ◌≡◌, Bool, true, false, Option, none, some, List, [], ◌∷◌, ◌++◌, ◌&&◌, ◌||◌, not, ◌==◌,
  leb, length, take, ◌-◌, if◌then◌else◌,
}
use mqtt_protocol_v.Common.Equality.{Bytes, bytes_eq, bytes_instance, codes}
use mqtt_protocol_v.Common.Map
use mqtt_protocol_v.Common.Map.{Map}
use mqtt_protocol_v.Common.Split.{contains, split}
use mqtt_protocol_v.Packets.Codec.{utf8_valid}
use mqtt_protocol_v.Packets.Codes.{code_success, code_byte}
use mqtt_protocol_v.Packets.Packet.{Packet}
use mqtt_protocol_v.Packets.Types
use mqtt_protocol_v.Packets.UserProperty.{UserProperty}

-- Every string is valid UTF-8.
abbrev pub AreTexts : List Bytes → Type 0
AreTexts allowed = All (λ p. utf8_valid p ≡ true) allowed

pub record Crypto : Type 0 where
  pub hmac : Bytes → Bytes → Bytes
  pub encode64 : Bytes → Bytes
  pub decode64 : Bytes → Option Bytes
  pub marshal : List Bytes → Bytes
  pub unmarshal : Bytes → Option (List Bytes)
  pub decode64-encode64 : (b : Bytes) → decode64 (encode64 b) ≡ some b
  -- the base64 alphabet has no dot
  pub encode64_no_dot : (b : Bytes) → contains b'.' (encode64 b) ≡ false
  -- JSON keeps strings of valid UTF-8
  pub unmarshal-marshal :
      (allowed : List Bytes) → AreTexts allowed → unmarshal (marshal allowed) ≡ some allowed

-- `WildcardTokenHook`, with its configuration
pub record TokenHook : Type 0 where
  pub shared_secret : Bytes
  pub permissions : Map Bytes (List Bytes)
  pub active_tokens : Map Bytes (List Bytes)

-- the errors of `verifyToken`
pub data TokenError : Type 0 where
  bad_format bad_payload bad_signature mismatch bad_json : TokenError

pub data Verdict : Type 0 where
  allowed : List Bytes → Verdict
  refused : TokenError → Verdict

abbrev pub token_key : Bytes
token_key = codes "wildcard-token"

-- `strings.HasSuffix(key, "*")` and what `strings.TrimSuffix(key, "*")` leaves
unfoldable pub star_prefix : Bytes → Option Bytes
star_prefix [] = none
star_prefix (b ∷ []) = if b == b'*' then some [] else none
star_prefix (b ∷ c ∷ bs) = elim (star_prefix (c ∷ bs)) [
  | none ↦ none
  | some front ↦ some (b ∷ front)
]

-- `strings.HasPrefix`
unfoldable pub has_prefix : Bytes → Bytes → Bool
has_prefix s front = bytes_eq (take (length front) s) front

-- the loop over the permissions, in the order in which the map is visited
starred : Bytes → Map Bytes (List Bytes) → Option (List Bytes)
unfolding star_prefix has_prefix
starred id [] = none
starred id ((key, val) ∷ rest) = elim (star_prefix key) [
  | none ↦ starred id rest
  | some front ↦ if has_prefix id front then some val else starred id rest
]

-- The patterns that a client is granted, if any.
unfoldable pub granted : TokenHook → Bytes → Option (List Bytes)
unfolding starred
granted h id = elim (Map.lookup id h.permissions) [
  | none ↦ starred id h.permissions
  | some patterns ↦ some patterns
]

-- the first property with the token's key
unfoldable pub token_of : List UserProperty → Option Bytes
token_of [] = none
token_of (p ∷ ps) = if bytes_eq p.key token_key then some p.val else token_of ps

-- `OnACLCheck`
allows : Option (List Bytes) → Bytes → Bool
allows none topic = false
allows (some []) topic = false
allows (some (pattern ∷ rest)) topic = bytes_eq pattern topic || allows (some rest) topic

abbrev pub has_wildcard : Bytes → Bool
has_wildcard topic = contains b'+' topic || contains b'#' topic

unfoldable pub on_acl_check : TokenHook → Bytes → Bytes → Bool → Bool
unfolding allows
on_acl_check h id topic write =
    if write
    then true
    else if not (has_wildcard topic)
    then true
    else allows (Map.lookup id h.active_tokens) topic

-- `OnSubscribed`
unfoldable pub on_subscribed : TokenHook → Bytes → TokenHook
on_subscribed h id = record h { active_tokens = Map.delete id h.active_tokens }

-- `OnDisconnect`
unfoldable pub on_disconnect : TokenHook → Bytes → TokenHook
on_disconnect h id = record h { active_tokens = Map.delete id h.active_tokens }

module _ (c : Crypto) where
  open c use {hmac, encode64, decode64, marshal, unmarshal}

  -- `generateToken`
  unfoldable pub generate_token : Bytes → List Bytes → Bytes
  generate_token secret patterns =
      let text = marshal patterns in encode64 text ++ b'.' ∷ encode64 (hmac secret text)

  -- the JSON step of `verifyToken`
  payload_verdict : Option (List Bytes) → Verdict
  payload_verdict none = refused bad_json
  payload_verdict (some patterns) = allowed patterns

  -- the signature steps of `verifyToken`
  signed_verdict : Bytes → Bytes → Option Bytes → Verdict
  unfolding payload_verdict
  signed_verdict secret text none = refused bad_signature
  signed_verdict secret text (some provided) =
      if bytes_eq provided (hmac secret text)
      then payload_verdict (unmarshal text)
      else refused mismatch

  parts_verdict : Bytes → Option Bytes → Bytes → Verdict
  unfolding signed_verdict
  parts_verdict secret none signature = refused bad_payload
  parts_verdict secret (some text) signature = signed_verdict secret text (decode64 signature)

  two_parts : Bytes → List Bytes → Verdict
  unfolding parts_verdict
  two_parts secret (payload ∷ signature ∷ []) = parts_verdict secret (decode64 payload) signature
  two_parts secret _ = refused bad_format

  -- `verifyToken`
  unfoldable pub verify_token : Bytes → Bytes → Verdict
  unfolding two_parts
  verify_token secret token = two_parts secret (split b'.' token)

  -- `OnPacketEncode`
  unfoldable pub on_packet_encode : TokenHook → Bytes → Packet → Packet
  unfolding granted generate_token code_byte
  on_packet_encode h id pk =
      if pk.fixed_header.packet_type == Types.connack && pk.reason_code == code_byte code_success
      then (elim (granted h id) [
        | none ↦ pk
        | some patterns ↦ record pk {
          properties = record (pk.properties) {
            user =
                pk.properties.user
                ++ record { key = token_key; val = generate_token h.shared_secret patterns } ∷ [];
          };
        }
      ])
      else pk

  -- what `OnSubscribe` does with a verdict
  store : TokenHook → Bytes → Verdict → TokenHook
  store h id (allowed patterns) = record h {
    active_tokens = Map.insert id patterns h.active_tokens;
  }
  store h id (refused e) = h

  -- `OnSubscribe`: the hook afterwards; the packet is passed on as it is.
  unfoldable pub on_subscribe : TokenHook → Bytes → Packet → TokenHook
  unfolding store
  on_subscribe h id pk = elim (token_of pk.properties.user) [
    | none ↦ h
    | some token ↦ store h id (verify_token h.shared_secret token)
  ]
