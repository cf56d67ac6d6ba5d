-- ===== src/Modules/AuthDefense/Runs.antt =====
-- Runs of the auth defense, and its theorems at concrete inputs.
use mqtt_protocol_v.Common.{◌≤◌, refl, List, [], ◌∷◌, arith}
use mqtt_protocol_v.Common.Equality.{Bytes, codes, bytes_instance}
use mqtt_protocol_v.Common.Int.{pos, ◌≤ℤ◌}
use mqtt_protocol_v.Common.Map
use mqtt_protocol_v.Modules.AuthDefense.{AuthConfig, second, fresh}
use mqtt_protocol_v.Modules.AuthDefense.Slots.{Call, connect, disconnect, run, active-le-max}
use mqtt_protocol_v.Modules.AuthDefense.Rate.{entries, entries-le-rate}

abbrev alice : Bytes
alice = codes "alice"

abbrev home : Bytes
home = codes "10.0.0.1"

abbrev tight : AuthConfig
tight = record {
  max_conn_per_sec = 2;
  max_concurrent_conn = 1;
  max_auth_per_conn = 2;
  conn_timeout = second;
}

abbrev calls : List Call
calls =
    connect alice home 5
    ∷ connect (codes "bob") home 6
    ∷ disconnect alice
    ∷ connect alice home 7
    ∷ []

active-le-max_example : (run (fresh tight) calls).active_connections ≤ℤ pos 1
active-le-max_example = active-le-max tight calls

entries-le-rate_example : entries (fresh tight) home calls ≤ 2
unfolding Map.lookup
entries-le-rate_example = entries-le-rate (fresh tight) home 5 calls refl (omega arith)
