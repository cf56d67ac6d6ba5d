-- ===== src/Packets/Codec/Utf8.antt =====
-- Go's `utf8.Valid`, as a walk over the bytes. A state says how many continuation bytes are still
-- due, and in which range the next one must lie.
use mqtt_protocol_v.Common.{
  ℕ, zero, suc, Bool, false, ◌&&◌, Option, none, some, [], ◌∷◌, ltb, leb, ◌==◌, if◌then◌else◌,
}
use mqtt_protocol_v.Common.Equality.{Bytes}

record State : Type 0 where
  due : ℕ
  low : ℕ
  high : ℕ

abbrev start : State
start = record { due = 0; low = 0x80; high = 0xbf }

abbrev state : ℕ → ℕ → ℕ → Option State
state due low high = some (record { due = due; low = low; high = high })

-- the first byte of a character
lead : ℕ → Option State
lead b =
    if ltb b 0x80
    then some start
    else if ltb b 0xc2
    then none
    else if ltb b 0xe0
    then state 1 0x80 0xbf
    else if b == 0xe0
    then state 2 0xa0 0xbf
    else if b == 0xed
    then state 2 0x80 0x9f
    else if ltb b 0xf0
    then state 2 0x80 0xbf
    else if b == 0xf0
    then state 3 0x90 0xbf
    else if ltb b 0xf4
    then state 3 0x80 0xbf
    else if b == 0xf4
    then state 3 0x80 0x8f
    else none

next : State → ℕ → Option State
unfolding lead
next s b = elim s.due [
  | zero ↦ lead b
  | suc due ↦ if leb s.low b && leb b s.high then state due 0x80 0xbf else none
]

walk : State → Bytes → Bool
unfolding next
walk s [] = s.due == 0
walk s (b ∷ bs) = elim (next s b) [ none ↦ false | some s' ↦ walk s' bs ]

-- `utf8.Valid`
unfoldable pub utf8_valid : Bytes → Bool
unfolding walk
utf8_valid bs = walk start bs
