-- ===== src/Modules/PropertyValidator/Counters.antt =====
-- The metrics of the validator.
use mqtt_protocol_v.Common.{ℕ, ◌+◌, ◌≡◌, Option, none, some, List, [], ◌∷◌, arith, if◌then◌else◌}
use mqtt_protocol_v.Common.Equality.{Bytes}
use mqtt_protocol_v.Packets.UserProperty.{UserProperty}
use mqtt_protocol_v.Modules.PropertyValidator.{ValidatorHook, sizes, charge, on_publish, metrics}

charge_counts :
    (h : ValidatorHook) (id : Bytes) (o : Option ℕ)
    → metrics (charge h id o).0 ≡ (
        let bad : ℕ = if (charge h id o).1 then 0 else 1 in
        (h.packets_checked, h.packets_dropped + bad, h.violation_count + bad))
unfolding charge metrics
charge_counts h id none = ground arith
charge_counts h id (some n) = ground arith

-- Every packet is counted as checked, and a packet is counted as dropped and as a violation exactly
-- when it is refused.
pub metrics-on_publish :
    (h : ValidatorHook) (id : Bytes) (props : List UserProperty)
    → let bad : ℕ = if (on_publish h id props).1 then 0 else 1 in
      metrics (on_publish h id props).0
      ≡ (h.packets_checked + 1, h.packets_dropped + bad, h.violation_count + bad)
unfolding on_publish metrics
metrics-on_publish h id [] = ground arith
metrics-on_publish h id (p ∷ ps) =
    let h' = record h { packets_checked = h.packets_checked + 1 } in
    ground (arith, charge_counts h' id (sizes h.config (p ∷ ps) 0))
