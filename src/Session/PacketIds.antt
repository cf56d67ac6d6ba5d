-- ===== src/Session/PacketIds.antt =====
-- `NextPacketID` of broker/clients.go.
pub mod Search
use mqtt_protocol_v.Common.{
  ℕ, zero, suc, ◌+◌, ◌*◌, ◌%◌, ◌^◌, Bool, true, false, ◌&&◌, Option, none, some, leb, ◌==◌,
  if◌then◌else◌,
}
use mqtt_protocol_v.Common.Map.{has}
use mqtt_protocol_v.Packets.Codes.{err_quota_exceeded}
use mqtt_protocol_v.Packets.Errors.{coded, Result, ok, err}
use mqtt_protocol_v.Session.Inflight.{Inflight, get}

-- The loop, on fuel for its rounds: `id` is `i`, and `none` says that the fuel is used up.
unfoldable pub search : ℕ → Inflight → ℕ → ℕ → ℕ → Bool → Option (Result ℕ)
search zero inflight maximum started id overflowed = none
search (suc fuel) inflight maximum started id overflowed =
    let wrapped = search fuel inflight maximum started 0 true in
    let onward = search fuel inflight maximum started (id + 1) overflowed in
    if overflowed && id == started
    then some (err (coded err_quota_exceeded))
    else if leb maximum id
    then wrapped
    else if has (get inflight ((id + 1) % 2 ^ 16))
    then onward
    else some (ok (id + 1))

-- `NextPacketID`, from the maximum and the id given last: the id found, which is also the one that it
-- stores. It passes every id at most once and turns back once.
unfoldable pub next_packet_id : Inflight → ℕ → ℕ → Option (Result ℕ)
unfolding search
next_packet_id inflight maximum packet_id =
    search (maximum + 3) inflight maximum packet_id packet_id false
