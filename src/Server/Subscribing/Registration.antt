-- ===== src/Server/Subscribing/Registration.antt =====
-- What a filter's reason code says of the index and of the client.
use mqtt_protocol_v.Common.{
  ℕ, List, [], ◌∷◌, ◌≤◌, ◌≡◌, refl, ap, ◌∙◌, ◌⊎◌, inl, inr, Bool, true, false, not, ◌&&◌, some,
  arith, if_both, if◌then◌else◌, ==_iff,
}
use mqtt_protocol_v.Common.Equality.{bytes_eq_iff, bytes_instance}
use mqtt_protocol_v.Common.Map
use mqtt_protocol_v.Common.Map.{has, lookup-insert}
use mqtt_protocol_v.Packets.Codes.{
  code_byte, err_unspecified_error, err_not_authorized, err_topic_filter_invalid,
  err_protocol_violation_invalid_shared_no_local,
}
use mqtt_protocol_v.Packets.Packet.{Subscription}
use mqtt_protocol_v.Topics.Filters.{is_valid_filter, is_shared_filter}
use mqtt_protocol_v.Topics.Index
use mqtt_protocol_v.Topics.Index.Address.{address, held, same_address_refl}
use mqtt_protocol_v.Topics.Index.Updates.{held-subscribe}
use mqtt_protocol_v.Server.Failures.{is_failure}
use mqtt_protocol_v.Server.Hooks.{on_acl_check}
use mqtt_protocol_v.Server.State.{World, Env}
use mqtt_protocol_v.Server.Subscribing.{grant, ask}

-- The code is a QoS within both bounds, the index and the client hold the subscription, and
-- `existed` is whether the index held one before.
abbrev pub IsGranted : Env → ℕ → Subscription → World → ℕ × Bool × World → Type 0
IsGranted env cl sub w (byte, existed, w') =
    (byte ≤ sub.qos)
    × (byte ≤ env.capabilities.maximum_qos)
    × (held w'.topics (address sub.filter) (w.heap cl).id ≡ some sub)
    × (Map.lookup sub.filter (w'.heap cl).subscriptions ≡ some sub)
    × (existed ≡ has (held w.topics (address sub.filter) (w.heap cl).id))

-- the code is that of a failure, and nothing has changed
abbrev pub IsRefused : World → ℕ × Bool × World → Type 0
IsRefused w (byte, existed, w') = (is_failure byte ≡ true) × (w' ≡ w)

pub Answered : Env → ℕ → Subscription → World → ℕ × Bool × World → Type 0
Answered env cl sub w answer = IsGranted env cl sub w answer ⊎ IsRefused w answer

refused :
    (env : Env) (cl : ℕ) (sub : Subscription) (w : World) (byte : ℕ)
    → is_failure byte ≡ true
    → Answered env cl sub w (byte, false, w)
unfolding Answered
refused env cl sub w byte bad = inr (bad, refl)

not-not : (b : Bool) → not (not b) ≡ b
not-not true = refl
not-not false = refl

grant-Answered :
    (env : Env) (cl : ℕ) (sub : Subscription) (w : World)
    → Answered env cl sub w (grant env cl sub w)
unfolding Answered grant
grant-Answered env cl sub w =
    let id = (w.heap cl).id in
    let (holds, is_new) = held-subscribe w.topics id sub (address sub.filter) id in
    let now : held (Index.subscribe w.topics id sub).0 (address sub.filter) id ≡ some sub =
      holds ∙ rw (same_address_refl (address sub.filter), (bytes_eq_iff id id).1 refl) refl in
    inl (
      ground arith,
      ground arith,
      if_both (λ (v : World). held v.topics (address sub.filter) id ≡ some sub) _ now now,
      rw ((==_iff cl cl).1 refl) (
          lookup-insert sub.filter sub.filter sub _
          ∙ rw ((bytes_eq_iff sub.filter sub.filter).1 refl) refl),
      ap not is_new ∙ not-not (has (held w.topics (address sub.filter) id)),
    )

-- `ask` grants or refuses.
pub ask-Answered :
    (env : Env) (cl : ℕ) (sub : Subscription) (w : World) → Answered env cl sub w (ask env cl sub w)
unfolding ask code_byte
ask-Answered env cl sub w =
    let P = Answered env cl sub w in
    let denied =
      if env.capabilities.obscure_not_authorized
      then code_byte err_unspecified_error
      else code_byte err_not_authorized in
    if_both P (not (is_valid_filter sub.filter false))
      (refused env cl sub w (code_byte err_topic_filter_invalid) refl)
      (if_both P (sub.no_local && is_shared_filter sub.filter)
        (refused env cl sub w (code_byte err_protocol_violation_invalid_shared_no_local) refl)
        (if_both P (not (on_acl_check env.hooks (w, cl) sub.filter false))
          (refused env cl sub w denied (
            if_both (λ (byte : ℕ). is_failure byte ≡ true) env.capabilities.obscure_not_authorized
              refl refl))
          (grant-Answered env cl sub w)))

-- A code that a client of a version may be sent: below version 5, a QoS or the one code of a failure.
abbrev pub IsSendable : ℕ → ℕ → Type 0
IsSendable version byte = (5 ≤ version) ⊎ (byte ≤ 2) ⊎ (byte ≡ code_byte err_unspecified_error)

-- The rounds of the loop over the filters, each from the state that the one before it left: the
-- filter is granted or refused, with a code that the client's version knows.
pub data Served (env : Env) (cl : ℕ)
    : List Subscription → World → List (ℕ × Bool) → World → Type 0 where
  done : (w : World) → Served env cl [] w [] w
  next :
      {subs : List Subscription} {answers : List (ℕ × Bool)} {after : World} (sub : Subscription)
      (w middle : World) (byte : ℕ) (existed : Bool)
      → Answered env cl sub w (byte, existed, middle)
      → IsSendable (w.heap cl).protocol_version byte
      → Served env cl subs middle answers after
      → Served env cl (sub ∷ subs) w ((byte, existed) ∷ answers) after
