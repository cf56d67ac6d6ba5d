-- ===== src/Modules/PropertyValidator/Checks.antt =====
-- Which packets the validator lets pass.
use mqtt_protocol_v.Common.{
  ℕ, ◌+◌, ◌≤◌, ◌≡◌, refl, ◌↔◌, true, Option, none, some, List, [], ◌∷◌, arith, length, All, ltb,
  Bool-cases, inl, inr,
}
use mqtt_protocol_v.Common.Equality.{Bytes}
use mqtt_protocol_v.Packets.UserProperty.{UserProperty}
use mqtt_protocol_v.Modules.PropertyValidator.{
  PropertyConfig, ValidatorHook, sizes, charge, on_publish, budget_of,
}

-- The bytes of all keys and values.
abbrev pub payload : List UserProperty → ℕ
payload [] = 0
payload (p ∷ ps) = length p.key + length p.val + payload ps

-- No key and no value is too long.
abbrev pub Fits : PropertyConfig → UserProperty → Type 0
Fits c p = (length p.key ≤ c.max_key_size) × (length p.val ≤ c.max_value_size)

pub record IsWithin (h : ValidatorHook) (id : Bytes) (props : List UserProperty) : Type 0 where
  pub count : length props ≤ h.config.max_properties
  pub each : All (Fits h.config) props
  pub packet : payload props ≤ h.config.max_property_payload
  pub client : budget_of h id + payload props ≤ h.config.max_client_budget

sizes-some :
    (c : PropertyConfig) (props : List UserProperty) (total : ℕ)
    → All (Fits c) props
    → sizes c props total ≡ some (total + payload props)
unfolding sizes
sizes-some c [] total h = ground arith
sizes-some c (p ∷ ps) total h =
    ground (arith, sizes-some c ps (total + (length p.key + length p.val)))

sizes-Fits :
    (c : PropertyConfig) (props : List UserProperty) (total n : ℕ)
    → sizes c props total ≡ some n
    → All (Fits c) props
unfolding sizes
sizes-Fits c [] total n e = tt
sizes-Fits c (p ∷ ps) total n e =
    ground (arith, sizes-Fits c ps (total + (length p.key + length p.val)) n)

pub sizes-payload :
    (c : PropertyConfig) (props : List UserProperty) (total n : ℕ)
    → sizes c props total ≡ some n
    → n ≡ total + payload props
sizes-payload c props total n e =
    ground (arith, sizes-some c props total (sizes-Fits c props total n e))

-- A packet without user properties is not held to any limit.
abbrev pub Allowed : ValidatorHook → Bytes → List UserProperty → Type 0
Allowed h id [] = Unit
Allowed h id (p ∷ ps) = IsWithin h id (p ∷ ps)

charge-true :
    (h : ValidatorHook) (id : Bytes) (o : Option ℕ)
    → (charge h id o).1 ≡ true
    → (n : ℕ) × (o ≡ some n)
      × (n ≤ h.config.max_property_payload)
      × (budget_of h id + n ≤ h.config.max_client_budget)
unfolding charge
charge-true h id none e = cc
charge-true h id (some n) e = (n, refl, ground arith, ground arith)

-- `OnPublish` lets a packet pass exactly when it has no user properties, or when their number, each
-- key and value, their bytes together, and these added to what the client has already been charged
-- are all within the limits.
pub on_publish-Allowed :
    (h : ValidatorHook) (id : Bytes) (props : List UserProperty)
    → ((on_publish h id props).1 ≡ true) ↔ Allowed h id props
unfolding on_publish
on_publish-Allowed h id [] = (λ e. tt, λ a. refl)
on_publish-Allowed h id (p ∷ ps) = (passes, allowed)
  where
    passes : (on_publish h id (p ∷ ps)).1 ≡ true → IsWithin h id (p ∷ ps)
    passes e = elim (Bool-cases (ltb h.config.max_properties (length (p ∷ ps)))) [
      | inl many ↦ cc (rw many at e)
      | inr few ↦
          let h' = record h { packets_checked = h.packets_checked + 1 } in
          let (n, size, in_packet, in_budget) =
            charge-true h' id (sizes h.config (p ∷ ps) 0) (rw few at e) in
          record {
            count = ground arith;
            each = sizes-Fits h.config (p ∷ ps) 0 n size;
            packet = omega (arith, sizes-payload h.config (p ∷ ps) 0 n size);
            client = omega (arith, sizes-payload h.config (p ∷ ps) 0 n size);
          }
    ]

    allowed : IsWithin h id (p ∷ ps) → (on_publish h id (p ∷ ps)).1 ≡ true
    allowed w = ground (arith, sizes-some h.config (p ∷ ps) 0 w.each)
