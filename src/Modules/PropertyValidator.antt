-- ===== src/Modules/PropertyValidator.antt =====
-- broker/modules/defense/property_validator.go: limits on the user properties of PUBLISH packets.
pub mod Checks
pub mod Budget
pub mod Counters
mod Runs
use mqtt_protocol_v.Common.{
  ℕ, ◌+◌, ◌*◌, Bool, true, false, Option, none, some, List, [], ◌∷◌, ltb, ◌==◌, if◌then◌else◌,
  length,
}
use mqtt_protocol_v.Common.Equality.{Bytes, bytes_instance}
use mqtt_protocol_v.Common.Int.{ℤ}
use mqtt_protocol_v.Common.Map
use mqtt_protocol_v.Common.Map.{Map}
use mqtt_protocol_v.Modules.Config.{InitArg, nil, wrong_type, given, positive_or}
use mqtt_protocol_v.Packets.UserProperty.{UserProperty}

-- `PropertyValidatorConfig` as the caller gives it: Go `int`s
pub record RawConfig : Type 0 where
  pub max_properties : ℤ
  pub max_key_size : ℤ
  pub max_value_size : ℤ
  pub max_property_payload : ℤ
  pub max_client_budget : ℤ

-- the configuration that the hook holds after `Init`
pub record PropertyConfig : Type 0 where
  pub max_properties : ℕ
  pub max_key_size : ℕ
  pub max_value_size : ℕ
  pub max_property_payload : ℕ
  pub max_client_budget : ℕ

abbrev pub default_config : PropertyConfig
default_config = record {
  max_properties = 10;
  max_key_size = 256;
  max_value_size = 256;
  max_property_payload = 4096;
  max_client_budget = 32 * 1024;
}

-- `PropertyValidatorHook.Init`: `none` is `ErrInvalidConfigType`.
unfoldable pub init : InitArg RawConfig → Option PropertyConfig
unfolding positive_or
init nil = some default_config
init wrong_type = none
init (given c) = some (record {
  max_properties = positive_or c.max_properties 10;
  max_key_size = positive_or c.max_key_size 256;
  max_value_size = positive_or c.max_value_size 256;
  max_property_payload = positive_or c.max_property_payload 4096;
  max_client_budget = positive_or c.max_client_budget (32 * 1024);
})

-- `PropertyValidatorHook`. The budgets and the counters are `int64`s that only grow, by less than
-- 2 ^ 32 a packet; wrapping is left out.
pub record ValidatorHook : Type 0 where
  pub config : PropertyConfig
  pub client_budgets : Map Bytes ℕ
  pub packets_checked : ℕ
  pub packets_dropped : ℕ
  pub violation_count : ℕ

abbrev pub fresh : PropertyConfig → ValidatorHook
fresh c = record {
  config = c;
  client_budgets = [];
  packets_checked = 0;
  packets_dropped = 0;
  violation_count = 0;
}

-- `recordViolation`
record_violation : ValidatorHook → ValidatorHook
record_violation h = record h {
  packets_dropped = h.packets_dropped + 1;
  violation_count = h.violation_count + 1;
}

-- The loop over the properties: `none` where a key or a value is too long, else the total size.
pub sizes : PropertyConfig → List UserProperty → ℕ → Option ℕ
sizes c [] total = some total
sizes c (p ∷ ps) total =
    let rest = sizes c ps (total + (length p.key + length p.val)) in
    if ltb c.max_key_size (length p.key)
    then none
    else if ltb c.max_value_size (length p.val)
    then none
    else rest

-- `getClientBudget`: a new client starts at zero
pub budget_of : ValidatorHook → Bytes → ℕ
budget_of h id = elim (Map.lookup id h.client_budgets) [ none ↦ 0 | some n ↦ n ]

-- checks 4 and 5 of `OnPublish`
charge : ValidatorHook → Bytes → Option ℕ → ValidatorHook × Bool
unfolding record_violation budget_of
charge h id none = (record_violation h, false)
charge h id (some total) =
    if ltb h.config.max_property_payload total
    then (record_violation h, false)
    else let new_total = budget_of h id + total in
      let h' = record h { client_budgets = Map.insert id new_total h.client_budgets } in
      if ltb h.config.max_client_budget new_total then (record_violation h', false) else (h', true)

-- `OnPublish`: the hook afterwards, and whether the packet passes (`false` is `ErrRejectPacket`).
unfoldable pub on_publish : ValidatorHook → Bytes → List UserProperty → ValidatorHook × Bool
unfolding sizes charge
on_publish h id [] = (record h { packets_checked = h.packets_checked + 1 }, true)
on_publish h id (p ∷ ps) =
    let h' = record h { packets_checked = h.packets_checked + 1 } in
    let props = p ∷ ps in
    if ltb h.config.max_properties (length props)
    then (record_violation h', false)
    else charge h' id (sizes h.config props 0)

-- `OnDisconnect`
unfoldable pub on_disconnect : ValidatorHook → Bytes → ValidatorHook
on_disconnect h id = record h { client_budgets = Map.delete id h.client_budgets }

-- `Metrics`
unfoldable pub metrics : ValidatorHook → ℕ × ℕ × ℕ
metrics h = (h.packets_checked, h.packets_dropped, h.violation_count)
