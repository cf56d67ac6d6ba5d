-- ===== src/Server/Hooks/Decisions.antt =====
-- What the sequence of hooks decides.
use mqtt_protocol_v.Common.{
  ◌≡◌, ◌⊎◌, ◌↔◌, inl, inr, refl, Bool, true, false, Option, none, some, List, [], ◌∷◌, arith,
  Bool-cases,
}
use mqtt_protocol_v.Common.Equality.{Bytes}
use mqtt_protocol_v.Packets.Packet.{Packet}
use mqtt_protocol_v.Server.Failures.{Failure}
use mqtt_protocol_v.Server.Hooks.{
  Method, Hook, on_acl_check, on_publish, publish_loop, strict_answer,
}
use mqtt_protocol_v.Common.{ap}

module _ {S C : Type 0} where
  -- some hook of the list provides the check and grants it
  abbrev pub Granted : List (Hook S C) → C → Bytes → Bool → Type 0
  Granted [] cl topic write = ⊥
  Granted (hook ∷ hooks) cl topic write =
      ((hook.provides Method.acl_check ≡ true) × (hook.acl_check cl topic write ≡ true))
      ⊎ Granted hooks cl topic write

  -- The broker lets a client use a topic exactly when some hook that provides the check grants it:
  -- without such a hook nothing is allowed, and no hook takes back what another one grants.
  pub on_acl_check-Granted :
      (hooks : List (Hook S C)) (cl : C) (topic : Bytes) (write : Bool)
      → (on_acl_check hooks cl topic write ≡ true) ↔ Granted hooks cl topic write
  unfolding on_acl_check
  on_acl_check-Granted [] cl topic write = ground arith
  on_acl_check-Granted (hook ∷ hooks) cl topic write =
      ground (arith, on_acl_check-Granted hooks cl topic write)

  -- The hooks of a list that pass a packet on, one after the other, from one packet to another.
  abbrev pub Passes : List (Hook S C) → C → Packet → Packet → Type 0
  Passes [] cl pk out = pk ≡ out
  Passes (hook ∷ hooks) cl pk out =
      ((hook.provides Method.publish ≡ false) × Passes hooks cl pk out)
      ⊎ ((hook.provides Method.publish ≡ true)
          × ((hook.publish cl pk).1 ≡ none)
          × Passes hooks cl (hook.publish cl pk).0 out)

  -- What became of a packet: passed on by all, or given back as it was.
  abbrev pub Outcome : Packet → List (Hook S C) → C → Packet → Packet × Option Failure → Type 0
  Outcome pk hooks cl pkx (out, none) = Passes hooks cl pkx out
  Outcome pk hooks cl pkx (out, some e) = out ≡ pk

  Outcome-longer :
      (pk : Packet) (hook : Hook S C) (hooks : List (Hook S C)) (cl : C) (pkx npk : Packet)
      → ((out : Packet) → Passes hooks cl npk out → Passes (hook ∷ hooks) cl pkx out)
      → (r : Packet × Option Failure) → Outcome pk hooks cl npk r
      → Outcome pk (hook ∷ hooks) cl pkx r
  Outcome-longer pk hook hooks cl pkx npk more (out, none) o = more out o
  Outcome-longer pk hook hooks cl pkx npk more (out, some e) o = o

  answer-Outcome :
      (pk : Packet) (hook : Hook S C) (hooks : List (Hook S C)) (cl : C) (pkx : Packet)
      → ((npk : Packet) → Outcome pk hooks cl npk (publish_loop pk hooks cl npk))
      → hook.provides Method.publish ≡ true
      → (r : Packet × Option Failure) → hook.publish cl pkx ≡ r
      → Outcome pk (hook ∷ hooks) cl pkx (strict_answer pk r (publish_loop pk hooks cl))
  unfolding strict_answer
  answer-Outcome pk hook hooks cl pkx onward takes (npk, some e) is = refl
  answer-Outcome pk hook hooks cl pkx onward takes (npk, none) is =
      Outcome-longer pk hook hooks cl pkx npk (λ out p. inr (takes, ap (λ r. r.1) is, rw is p)) _
        (onward npk)

  publish_loop-Outcome :
      (pk : Packet) (hooks : List (Hook S C)) (cl : C) (pkx : Packet)
      → Outcome pk hooks cl pkx (publish_loop pk hooks cl pkx)
  unfolding publish_loop
  publish_loop-Outcome pk [] cl pkx = refl
  publish_loop-Outcome pk (hook ∷ hooks) cl pkx = elim (Bool-cases (hook.provides Method.publish)) [
    | inl takes ↦ rw takes (
        answer-Outcome pk hook hooks cl pkx (publish_loop-Outcome pk hooks cl) takes
          (hook.publish cl pkx) refl)
    | inr skips ↦ rw skips (
        Outcome-longer pk hook hooks cl pkx pkx (λ out p. inl (skips, p)) _
          (publish_loop-Outcome pk hooks cl pkx))
  ]

  -- A publish packet that the hooks let through has gone through each of them that takes part, in
  -- the order in which they were attached, each given what the one before it made; where one
  -- answers with an error, the packet is the one that the client sent, whatever the hooks before
  -- it made of it.
  pub on_publish-Outcome :
      (hooks : List (Hook S C)) (cl : C) (pk : Packet)
      → Outcome pk hooks cl pk (on_publish hooks cl pk)
  unfolding on_publish
  on_publish-Outcome hooks cl pk = publish_loop-Outcome pk hooks cl pk
