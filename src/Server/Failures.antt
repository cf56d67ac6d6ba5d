-- ===== src/Server/Failures.antt =====
-- The errors that the broker's handlers return. A Go `error` is an option, whose `none` is `nil`.
use mqtt_protocol_v.Common.{ℕ, Bool, true, false, Option, some, leb}
use mqtt_protocol_v.Packets.Codes.{
  Code, code_byte, code_success, code_success_ignore, err_reject_packet, err_unspecified_error,
}
use mqtt_protocol_v.Packets.Errors.{Error, coded}

-- `connection_closed` is `ErrConnectionClosed`, `inline_client_not_enabled` is
-- `ErrInlineClientNotEnabled`, `no_packet_type t` wraps `ErrNoValidPacketAvailable`,
-- and `other n` is any error of a connection or a hook.
pub data Failure : Type 0 where
  codec : Error → Failure
  connection_closed : Failure
  inline_client_not_enabled : Failure
  no_packet_type : ℕ → Failure
  other : ℕ → Failure

-- a `Code` as an error
abbrev pub code_error : Code → Option Failure
code_error c = some (codec (coded c))

-- `errors.Is` for the two codes that the broker asks for
pub is_reject : Failure → Bool
is_reject (codec (coded err_reject_packet)) = true
is_reject f = false

pub is_ignore : Failure → Bool
is_ignore (codec (coded code_success_ignore)) = true
is_ignore f = false

-- whether a code's byte is at least that of `ErrUnspecifiedError`
abbrev pub is_failure : ℕ → Bool
is_failure byte = leb (code_byte err_unspecified_error) byte

-- `code == packets.CodeSuccess`
unfoldable pub is_success : Code → Bool
is_success code_success = true
is_success code = false
