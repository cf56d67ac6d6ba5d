-- ===== src/Modules/AuthDefense/Rate.antt =====
-- The connection rate of one address.
use mqtt_protocol_v.Common.{
  ℕ, ◌+◌, ◌-◌, ◌≤◌, ◌≡◌, Bool, true, false, Option, none, some, List, [], ◌∷◌, arith, if◌then◌else◌,
  ◌&&◌, Bool-cases, inl, inr, ◌∙◌, ◌⊎◌,
}
use mqtt_protocol_v.Common.Equality.{Bytes, bytes_eq, bytes_eq_iff, bytes_instance}
use mqtt_protocol_v.Common.Map
use mqtt_protocol_v.Common.Map.{lookup-insert}
use mqtt_protocol_v.Modules.AuthDefense.{
  DefenseHook, IpTracker, Refusal, second, count_attempt, on_connect, on_disconnect, ltb_ℤ, pos,
  incr,
}
use mqtt_protocol_v.Modules.AuthDefense.Slots.{Call, connect, disconnect}

abbrev pub tracker_of : DefenseHook → Bytes → Option IpTracker
tracker_of h ip = Map.lookup ip h.ip_rates

abbrev entered : Option Refusal → Bool
entered none = true
entered (some r) = false

-- How many connections from one address are let in over a sequence of calls.
pub entries : DefenseHook → Bytes → List Call → ℕ
entries h ip [] = 0
entries h ip (connect id from now ∷ cs) =
    (if bytes_eq from ip && entered (on_connect h id from now).1 then 1 else 0)
    + entries (on_connect h id from now).0 ip cs
entries h ip (disconnect id ∷ cs) = entries (on_disconnect h id) ip cs

-- Every attempt of this address comes between two times.
abbrev pub Between : ℕ → ℕ → Bytes → List Call → Type 0
Between lo hi ip [] = Unit
Between lo hi ip (connect id from now ∷ cs) =
    (from ≡ ip → (lo ≤ now) × (now ≤ hi)) × Between lo hi ip cs
Between lo hi ip (disconnect id ∷ cs) = Between lo hi ip cs

other_step :
    (h : DefenseHook) (id from ip : Bytes) (now : ℕ)
    → bytes_eq from ip ≡ false
    → (tracker_of (on_connect h id from now).0 ip ≡ tracker_of h ip)
      × ((on_connect h id from now).0.config ≡ h.config)
unfolding on_connect
other_step h id from ip now ne =
    ground
      (arith, lookup-insert from ip (count_attempt (Map.lookup from h.ip_rates) now) h.ip_rates)

-- An attempt inside the window of a tracker: it is counted unless the broker is too busy, and is let
-- in only if the count then is within the limit.
same_step :
    (h : DefenseHook) (id ip : Bytes) (now : ℕ) (t : IpTracker)
    → tracker_of h ip ≡ some t
    → now ≤ t.reset_time
    → let r = on_connect h id ip now in
      let hit : ℕ = if entered r.1 then 1 else 0 in
      (n : ℕ) × (tracker_of r.0 ip ≡ some (record t { count = n }))
      × (r.0.config ≡ h.config)
      × (hit + (h.config.max_conn_per_sec - n) ≤ h.config.max_conn_per_sec - t.count)
unfolding on_connect
same_step h id ip now t e inside =
    elim (Bool-cases (ltb_ℤ (pos h.config.max_concurrent_conn) (incr h.active_connections))) [
      | inl busy ↦ (t.count, ground arith, ground arith, ground arith)
      | inr room ↦ (
        t.count + 1,
        ground (
          arith,
          lookup-insert ip ip (count_attempt (some t) now) h.ip_rates,
          bytes_eq_iff ip ip,
        ),
        ground arith,
        ground arith,
      )
    ]

entries_from :
    (h : DefenseHook) (ip : Bytes) (t : IpTracker) (lo hi : ℕ) (cs : List Call)
    → tracker_of h ip ≡ some t
    → hi ≤ t.reset_time
    → Between lo hi ip cs
    → entries h ip cs ≤ h.config.max_conn_per_sec - t.count
unfolding entries on_disconnect
entries_from h ip t lo hi [] e wide by = omega arith
entries_from h ip t lo hi (connect id from now ∷ cs) e wide (inside, by) =
    elim (Bool-cases (bytes_eq from ip)) [
      | inl same ↦
          let here : from ≡ ip = (bytes_eq_iff from ip).0 same in
          let (n, kept, config, bound) = same_step h id ip now t e (omega (arith, inside here)) in
          rw here (
            ground (
              arith,
              bytes_eq_iff ip ip,
              entries_from (on_connect h id ip now).0 ip (record t { count = n }) lo hi cs kept wide
                  by,
            ))
      | inr other ↦
          let (kept, config) = other_step h id from ip now other in
          ground (arith, entries_from (on_connect h id from now).0 ip t lo hi cs (kept ∙ e) wide by)
    ]
entries_from h ip t lo hi (disconnect id ∷ cs) e wide by =
    entries_from (on_disconnect h id) ip t lo hi cs e wide by

-- An attempt without a tracker: either the broker is too busy and none is made, or it opens a window.
first_step :
    (h : DefenseHook) (id ip : Bytes) (now : ℕ)
    → tracker_of h ip ≡ none
    → let r = on_connect h id ip now in
      (r.0.config ≡ h.config)
      × (((tracker_of r.0 ip ≡ none) × (entered r.1 ≡ false))
          ⊎ ((tracker_of r.0 ip ≡ some (record { count = 1; reset_time = now + second }))
              × ((if entered r.1 then 1 else 0) + (h.config.max_conn_per_sec - 1)
                  ≤ h.config.max_conn_per_sec)))
unfolding on_connect
first_step h id ip now e =
    elim (Bool-cases (ltb_ℤ (pos h.config.max_concurrent_conn) (incr h.active_connections))) [
      | inl busy ↦ (ground arith, inl (ground arith))
      | inr room ↦ (
        ground arith,
        inr (
            ground
              (arith, lookup-insert ip ip (count_attempt none now) h.ip_rates, bytes_eq_iff ip ip)),
      )
    ]

-- From an address that the hook holds no tracker of, at most `MaxConnPerSec` connections are let in
-- over any sequence of calls in which its attempts lie within one second, whatever other addresses
-- and disconnects come between.
pub entries-le-rate :
    (h : DefenseHook) (ip : Bytes) (start : ℕ) (cs : List Call)
    → tracker_of h ip ≡ none
    → Between start (start + second) ip cs
    → entries h ip cs ≤ h.config.max_conn_per_sec
unfolding entries on_disconnect
entries-le-rate h ip start [] e by = omega arith
entries-le-rate h ip start (connect id from now ∷ cs) e (inside, by) =
    elim (Bool-cases (bytes_eq from ip)) [
      | inl same ↦
          let here : from ≡ ip = (bytes_eq_iff from ip).0 same in
          let (config, split) = first_step h id ip now e in
          rw here (elim split [
            | inl (still, refused) ↦
                ground (arith, entries-le-rate (on_connect h id ip now).0 ip start cs still by)
            | inr (opened, bound) ↦ ground (
              arith,
              bytes_eq_iff ip ip,
              entries_from (on_connect h id ip now).0 ip
                  (record { count = 1; reset_time = now + second }) start (start + second) cs opened
                  (omega (arith, inside here)) by,
            )
          ])
      | inr other ↦
          let (kept, config) = other_step h id from ip now other in
          ground (arith, entries-le-rate (on_connect h id from now).0 ip start cs (kept ∙ e) by)
    ]
entries-le-rate h ip start (disconnect id ∷ cs) e by =
    entries-le-rate (on_disconnect h id) ip start cs e by
