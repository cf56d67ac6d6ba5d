-- ===== src/Modules/AuthDefense/Slots.antt =====
-- The concurrent connections that `OnConnect` lets in.
use mqtt_protocol_v.Common.{ℕ, zero, suc, ◌≡◌, Option, none, some, List, [], ◌∷◌, arith}
use mqtt_protocol_v.Common.Equality.{Bytes}
use mqtt_protocol_v.Common.Int.{ℤ, pos, negsuc, incr, decr, ◌≤ℤ◌, decr-incr}
use mqtt_protocol_v.Modules.AuthDefense.{
  AuthConfig, DefenseHook, Refusal, too_busy, fresh, on_connect, on_disconnect,
}

-- the slots after a connection attempt with this error
abbrev pub slots_after : ℤ → Option Refusal → ℤ
slots_after n none = incr n
slots_after n (some r) = n

-- `OnConnect` takes one slot exactly when it lets the connection in; a refused connection, at
-- either limit, holds none.
pub on_connect_slots :
    (h : DefenseHook) (id ip : Bytes) (now : ℕ)
    → (on_connect h id ip now).0.active_connections
      ≡ slots_after h.active_connections (on_connect h id ip now).1
unfolding on_connect
on_connect_slots h id ip now = ground (arith, decr-incr h.active_connections)

pub config-on_connect :
    (h : DefenseHook) (id ip : Bytes) (now : ℕ) → (on_connect h id ip now).0.config ≡ h.config
unfolding on_connect
config-on_connect h id ip now = ground arith

-- A call of the hook by the server.
pub data Call : Type 0 where
  connect : Bytes → Bytes → ℕ → Call
  disconnect : Bytes → Call

unfoldable pub run : DefenseHook → List Call → DefenseHook
run h [] = h
run h (connect id ip now ∷ cs) = run (on_connect h id ip now).0 cs
run h (disconnect id ∷ cs) = run (on_disconnect h id) cs

connect_within :
    (h : DefenseHook) (id ip : Bytes) (now : ℕ)
    → h.active_connections ≤ℤ pos h.config.max_concurrent_conn
    → (on_connect h id ip now).0.active_connections ≤ℤ pos h.config.max_concurrent_conn
unfolding on_connect
connect_within h id ip now le = ground (arith, decr-incr h.active_connections)

decr-le : (a : ℤ) (n : ℕ) → a ≤ℤ pos n → decr a ≤ℤ pos n
decr-le (pos zero) n le = omega arith
decr-le (pos (suc a)) n le = ground arith
decr-le (negsuc a) n le = ground arith

run_within :
    (h : DefenseHook) (cs : List Call)
    → h.active_connections ≤ℤ pos h.config.max_concurrent_conn
    → (run h cs).active_connections ≤ℤ pos h.config.max_concurrent_conn
unfolding run on_disconnect
run_within h [] le = le
run_within h (connect id ip now ∷ cs) le = rw (config-on_connect h id ip now) at (
    run_within (on_connect h id ip now).0 cs
      (rw (config-on_connect h id ip now) (connect_within h id ip now le)))
run_within h (disconnect id ∷ cs) le =
    run_within (on_disconnect h id) cs (decr-le h.active_connections _ le)

-- Over any sequence of calls from its start the hook never counts more connections than
-- `MaxConcurrentConn`.
pub active-le-max :
    (c : AuthConfig) (cs : List Call)
    → (run (fresh c) cs).active_connections ≤ℤ pos c.max_concurrent_conn
active-le-max c cs = run_within (fresh c) cs (omega arith)

-- `OnConnect` refuses where all slots are taken.
pub busy :
    (h : DefenseHook) (id ip : Bytes) (now : ℕ)
    → h.active_connections ≡ pos h.config.max_concurrent_conn
    → (on_connect h id ip now).1 ≡ some too_busy
unfolding on_connect
busy h id ip now e = rw e (ground arith)
