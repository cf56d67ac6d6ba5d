-- ===== src/Modules/PropertyValidator/Runs.antt =====
-- Runs of the validator, and its theorems at concrete inputs.
use mqtt_protocol_v.Common.{◌≤◌, ◌≡◌, refl, false, some, List, [], ◌∷◌, arith}
use mqtt_protocol_v.Common.Equality.{Bytes, bytes_eq, codes, bytes_instance}
use mqtt_protocol_v.Common.Int.{pos, negsuc}
use mqtt_protocol_v.Common.Map
use mqtt_protocol_v.Modules.Config.{given}
use mqtt_protocol_v.Packets.UserProperty.{UserProperty}
use mqtt_protocol_v.Modules.PropertyValidator.{
  PropertyConfig, ValidatorHook, fresh, init, on_publish, budget_of,
}
use mqtt_protocol_v.Modules.PropertyValidator.Budget.{
  Event, publish, disconnect, run, admitted, admitted-le-budget, exhausted-Stays,
}

abbrev alice : Bytes
alice = codes "alice"

abbrev small : PropertyConfig
small = record {
  max_properties = 2;
  max_key_size = 4;
  max_value_size = 4;
  max_property_payload = 8;
  max_client_budget = 9;
}

abbrev trace : UserProperty
trace = record { key = codes "id"; val = codes "abc" }

init_fills_defaults :
    init (
      given (record {
        max_properties = pos 3;
        max_key_size = pos 0;
        max_value_size = negsuc 0;
        max_property_payload = pos 1;
        max_client_budget = pos 2;
      }))
    ≡ some (record {
      max_properties = 3;
      max_key_size = 256;
      max_value_size = 256;
      max_property_payload = 1;
      max_client_budget = 2;
    })
unfolding init
init_fills_defaults = refl

-- the second packet of five bytes passes the budget of nine
abbrev charged : ValidatorHook
charged = record {
  config = small;
  client_budgets = (alice, 10) ∷ [];
  packets_checked = 2;
  packets_dropped = 1;
  violation_count = 1;
}

second_is_refused :
    on_publish (on_publish (fresh small) alice (trace ∷ [])).0 alice (trace ∷ []) ≡ (charged, false)
unfolding on_publish Map.lookup Map.insert bytes_eq
second_is_refused = refl

abbrev history : List Event
history =
    publish alice (trace ∷ [])
    ∷ publish (codes "bob") (trace ∷ [])
    ∷ publish alice (trace ∷ [])
    ∷ disconnect alice
    ∷ publish alice (trace ∷ [])
    ∷ []

admitted-le-budget_example : admitted (fresh small) alice 0 history ≤ 9
admitted-le-budget_example = admitted-le-budget small alice history

exhausted-Stays_example :
    (on_publish (run charged (publish (codes "bob") (trace ∷ []) ∷ [])) alice (trace ∷ [])).1
    ≡ false
unfolding Map.lookup bytes_eq budget_of
exhausted-Stays_example =
    exhausted-Stays charged alice (publish (codes "bob") (trace ∷ []) ∷ []) trace [] (omega arith)
      tt
