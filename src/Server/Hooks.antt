-- ===== src/Server/Hooks.antt =====
-- broker/hooks.go: the hooks that are attached to the broker, and how it calls them in sequence.
-- `S` is the state that a hook can see when it is called, and `C` that state with a client. A hook is
-- a parameter of the model, by the answers of the methods whose answers the broker uses.
pub mod Decisions
use mqtt_protocol_v.Packets.UserProperty.{UserProperty}
use mqtt_protocol_v.Common.{ℕ, Bool, true, false, Option, none, some, List, [], ◌∷◌, if◌then◌else◌}
use mqtt_protocol_v.Common.Equality.{Bytes}
use mqtt_protocol_v.Packets.Packet.{Packet}
use mqtt_protocol_v.Topics.Stores.{Subscribers}
use mqtt_protocol_v.Server.Failures.{Failure, is_reject}

-- the constants that name a hook's methods, those of the methods below
pub data Method : Type 0 where
  connect_authenticate acl_check connect packet_read auth_packet packet_encode : Method
  subscribe unsubscribe select_subscribers publish last_will : Method

-- `Will` of broker/clients.go
pub record Will : Type 0 where
  pub payload : Bytes
  pub user : List UserProperty
  pub topic_name : Bytes
  pub flag : Bool
  pub will_delay_interval : ℕ
  pub qos : ℕ
  pub retain : Bool

-- `Hook`
pub record Hook (S C : Type 0) : Type 0 where
  pub provides : Method → Bool
  pub connect_authenticate : C → Packet → Bool
  pub acl_check : C → Bytes → Bool → Bool
  pub connect : C → Packet → Option Failure
  pub packet_read : C → Packet → Packet × Option Failure
  pub auth_packet : C → Packet → Packet × Option Failure
  pub packet_encode : C → Packet → Packet
  pub subscribe : C → Packet → Packet
  pub unsubscribe : C → Packet → Packet
  pub select_subscribers : S → Subscribers → Packet → Subscribers
  pub publish : C → Packet → Packet × Option Failure
  pub will : C → Will → Will × Option Failure

-- `HookBase`, which every hook embeds: it provides nothing, and changes nothing
abbrev pub hook_base : {S C : Type 0} → Hook S C
hook_base = record {
  provides = λ m. false;
  connect_authenticate = λ cl pk. false;
  acl_check = λ cl topic write. false;
  connect = λ cl pk. none;
  packet_read = λ cl pk. (pk, none);
  auth_packet = λ cl pk. (pk, none);
  packet_encode = λ cl pk. pk;
  subscribe = λ cl pk. pk;
  unsubscribe = λ cl pk. pk;
  select_subscribers = λ state subs pk. subs;
  publish = λ cl pk. (pk, none);
  will = λ cl will. (will, none);
}

-- the answer of a hook, or that of the hooks after it
or_else : Option Failure → Option Failure → Option Failure
or_else none rest = rest
or_else (some e) rest = some e

-- an answer in the loop of `OnPacketRead`: `pk` is the packet that was read, `pkx` what it has become
read_answer :
    Packet
    → Packet
    → Packet × Option Failure
    → (Packet → Packet × Option Failure)
    → Packet × Option Failure
read_answer pk pkx (npk, none) go = go npk
read_answer pk pkx (npk, some e) go =
    let onward = go pkx in if is_reject e then (pk, some e) else onward

-- an answer in the loops of `OnAuthPacket` and `OnPublish`: one with an error ends it, and gives back the
-- packet that it began with
pub strict_answer :
    Packet → Packet × Option Failure → (Packet → Packet × Option Failure) → Packet × Option Failure
strict_answer pk (npk, none) go = go npk
strict_answer pk (npk, some e) go = (pk, some e)

-- an answer in the loop of `OnWill`
pub will_answer : Will → Will × Option Failure → Will
will_answer will (changed, none) = changed
will_answer will (changed, some e) = will

module _ {S C : Type 0} where
  -- `Provides`
  provides_any : Hook S C → List Method → Bool
  provides_any hook [] = false
  provides_any hook (b ∷ bs) = if hook.provides b then true else provides_any hook bs

  pub provides : List (Hook S C) → List Method → Bool
  unfolding provides_any
  provides [] bs = false
  provides (hook ∷ hooks) bs = if provides_any hook bs then true else provides hooks bs

  -- `OnConnectAuthenticate`
  unfoldable pub on_connect_authenticate : List (Hook S C) → C → Packet → Bool
  on_connect_authenticate [] cl pk = false
  on_connect_authenticate (hook ∷ hooks) cl pk =
      let rest = on_connect_authenticate hooks cl pk in
      if hook.provides Method.connect_authenticate
      then (if hook.connect_authenticate cl pk then true else rest)
      else rest

  -- `OnACLCheck`
  unfoldable pub on_acl_check : List (Hook S C) → C → Bytes → Bool → Bool
  on_acl_check [] cl topic write = false
  on_acl_check (hook ∷ hooks) cl topic write =
      let rest = on_acl_check hooks cl topic write in
      if hook.provides Method.acl_check
      then (if hook.acl_check cl topic write then true else rest)
      else rest

  -- `OnConnect`
  unfoldable pub on_connect : List (Hook S C) → C → Packet → Option Failure
  unfolding or_else
  on_connect [] cl pk = none
  on_connect (hook ∷ hooks) cl pk =
      let rest = on_connect hooks cl pk in
      if hook.provides Method.connect then or_else (hook.connect cl pk) rest else rest

  read_loop : Packet → List (Hook S C) → C → Packet → Packet × Option Failure
  unfolding read_answer
  read_loop pk [] cl pkx = (pkx, none)
  read_loop pk (hook ∷ hooks) cl pkx =
      let passed = read_loop pk hooks cl pkx in
      if hook.provides Method.packet_read
      then read_answer pk pkx (hook.packet_read cl pkx) (read_loop pk hooks cl)
      else passed

  -- `OnPacketRead`
  pub on_packet_read : List (Hook S C) → C → Packet → Packet × Option Failure
  unfolding read_loop
  on_packet_read hooks cl pk = read_loop pk hooks cl pk

  auth_loop : Packet → List (Hook S C) → C → Packet → Packet × Option Failure
  unfolding strict_answer
  auth_loop pk [] cl pkx = (pkx, none)
  auth_loop pk (hook ∷ hooks) cl pkx =
      let passed = auth_loop pk hooks cl pkx in
      if hook.provides Method.auth_packet
      then strict_answer pk (hook.auth_packet cl pkx) (auth_loop pk hooks cl)
      else passed

  -- `OnAuthPacket`
  unfoldable pub on_auth_packet : List (Hook S C) → C → Packet → Packet × Option Failure
  unfolding auth_loop
  on_auth_packet hooks cl pk = auth_loop pk hooks cl pk

  pub publish_loop : Packet → List (Hook S C) → C → Packet → Packet × Option Failure
  unfolding strict_answer
  publish_loop pk [] cl pkx = (pkx, none)
  publish_loop pk (hook ∷ hooks) cl pkx =
      let passed = publish_loop pk hooks cl pkx in
      if hook.provides Method.publish
      then strict_answer pk (hook.publish cl pkx) (publish_loop pk hooks cl)
      else passed

  -- `OnPublish`
  unfoldable pub on_publish : List (Hook S C) → C → Packet → Packet × Option Failure
  unfolding publish_loop
  on_publish hooks cl pk = publish_loop pk hooks cl pk

  -- `OnPacketEncode`
  pub on_packet_encode : List (Hook S C) → C → Packet → Packet
  on_packet_encode [] cl pk = pk
  on_packet_encode (hook ∷ hooks) cl pk =
      on_packet_encode hooks cl
        (if hook.provides Method.packet_encode then hook.packet_encode cl pk else pk)

  -- `OnSubscribe`
  unfoldable pub on_subscribe : List (Hook S C) → C → Packet → Packet
  on_subscribe [] cl pk = pk
  on_subscribe (hook ∷ hooks) cl pk =
      on_subscribe hooks cl (if hook.provides Method.subscribe then hook.subscribe cl pk else pk)

  -- `OnUnsubscribe`
  pub on_unsubscribe : List (Hook S C) → C → Packet → Packet
  on_unsubscribe [] cl pk = pk
  on_unsubscribe (hook ∷ hooks) cl pk =
      on_unsubscribe hooks cl
        (if hook.provides Method.unsubscribe then hook.unsubscribe cl pk else pk)

  -- `OnSelectSubscribers`
  pub on_select_subscribers : List (Hook S C) → S → Subscribers → Packet → Subscribers
  on_select_subscribers [] state subs pk = subs
  on_select_subscribers (hook ∷ hooks) state subs pk =
      on_select_subscribers hooks state
        (if hook.provides Method.select_subscribers
          then hook.select_subscribers state subs pk
          else subs)
        pk

  -- `OnWill`
  pub on_will : List (Hook S C) → C → Will → Will
  on_will [] cl will = will
  on_will (hook ∷ hooks) cl will =
      on_will hooks cl
        (if hook.provides Method.last_will then will_answer will (hook.will cl will) else will)
