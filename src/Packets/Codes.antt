-- ===== src/Packets/Codes.antt =====
-- broker/packets/codes.go: the reason codes. `Code` has a constructor for each of the file's
-- variables; `code_byte` and `reason` are the two fields of the struct.
use mqtt_protocol_v.Common.{ℕ, zero, suc, Option, none, some}
use Prim.Native.String.{String}

pub data Code : Type 0 where
  code_success_ignore : Code
  code_success : Code
  code_disconnect : Code
  code_granted_qos0 : Code
  code_granted_qos1 : Code
  code_granted_qos2 : Code
  code_disconnect_will_message : Code
  code_no_matching_subscribers : Code
  code_no_subscription_existed : Code
  code_continue_authentication : Code
  code_re_authenticate : Code
  err_unspecified_error : Code
  err_malformed_packet : Code
  err_malformed_protocol_name : Code
  err_malformed_protocol_version : Code
  err_malformed_flags : Code
  err_malformed_keepalive : Code
  err_malformed_packet_id : Code
  err_malformed_topic : Code
  err_malformed_will_topic : Code
  err_malformed_will_payload : Code
  err_malformed_username : Code
  err_malformed_password : Code
  err_malformed_qos : Code
  err_malformed_offset_uint_out_of_range : Code
  err_malformed_offset_bytes_out_of_range : Code
  err_malformed_offset_byte_out_of_range : Code
  err_malformed_offset_bool_out_of_range : Code
  err_malformed_invalid_utf8 : Code
  err_malformed_variable_byte_integer : Code
  err_malformed_bad_property : Code
  err_malformed_properties : Code
  err_malformed_will_properties : Code
  err_malformed_session_present : Code
  err_malformed_reason_code : Code
  err_protocol_violation : Code
  err_protocol_violation_protocol_name : Code
  err_protocol_violation_protocol_version : Code
  err_protocol_violation_reserved_bit : Code
  err_protocol_violation_flag_no_username : Code
  err_protocol_violation_flag_no_password : Code
  err_protocol_violation_username_no_flag : Code
  err_protocol_violation_password_no_flag : Code
  err_protocol_violation_password_too_long : Code
  err_protocol_violation_username_too_long : Code
  err_protocol_violation_no_packet_id : Code
  err_protocol_violation_surplus_packet_id : Code
  err_protocol_violation_qos_out_of_range : Code
  err_protocol_violation_second_connect : Code
  err_protocol_violation_zero_non_zero_expiry : Code
  err_protocol_violation_require_first_connect : Code
  err_protocol_violation_will_flag_no_payload : Code
  err_protocol_violation_will_flag_surplus_retain : Code
  err_protocol_violation_surplus_wildcard : Code
  err_protocol_violation_surplus_sub_id : Code
  err_protocol_violation_invalid_topic : Code
  err_protocol_violation_invalid_shared_no_local : Code
  err_protocol_violation_no_filters : Code
  err_protocol_violation_invalid_reason : Code
  err_protocol_violation_oversize_sub_id : Code
  err_protocol_violation_dup_no_qos : Code
  err_protocol_violation_unsupported_property : Code
  err_protocol_violation_no_topic : Code
  err_implementation_specific_error : Code
  err_reject_packet : Code
  err_unsupported_protocol_version : Code
  err_client_identifier_not_valid : Code
  err_client_identifier_too_long : Code
  err_bad_username_or_password : Code
  err_not_authorized : Code
  err_server_unavailable : Code
  err_server_busy : Code
  err_banned : Code
  err_server_shutting_down : Code
  err_bad_authentication_method : Code
  err_keep_alive_timeout : Code
  err_session_taken_over : Code
  err_topic_filter_invalid : Code
  err_topic_name_invalid : Code
  err_packet_identifier_in_use : Code
  err_packet_identifier_not_found : Code
  err_receive_maximum : Code
  err_topic_alias_invalid : Code
  err_packet_too_large : Code
  err_message_rate_too_high : Code
  err_quota_exceeded : Code
  err_pending_client_writes_exceeded : Code
  err_administrative_action : Code
  err_payload_format_invalid : Code
  err_retain_not_supported : Code
  err_qos_not_supported : Code
  err_use_another_server : Code
  err_server_moved : Code
  err_shared_subscriptions_not_supported : Code
  err_connection_rate_exceeded : Code
  err_max_connect_time : Code
  err_subscription_identifiers_not_supported : Code
  err_wildcard_subscriptions_not_supported : Code
  err_inline_subscription_handler_invalid : Code
  err3_unsupported_protocol_version : Code
  err3_client_identifier_not_valid : Code
  err3_server_unavailable : Code
  err_malformed_username_or_password : Code
  err3_not_authorized : Code

unfoldable pub code_byte : Code → ℕ
code_byte code_success_ignore = 0x0
code_byte code_success = 0x0
code_byte code_disconnect = 0x0
code_byte code_granted_qos0 = 0x0
code_byte code_granted_qos1 = 0x1
code_byte code_granted_qos2 = 0x2
code_byte code_disconnect_will_message = 0x4
code_byte code_no_matching_subscribers = 0x10
code_byte code_no_subscription_existed = 0x11
code_byte code_continue_authentication = 0x18
code_byte code_re_authenticate = 0x19
code_byte err_unspecified_error = 0x80
code_byte err_malformed_packet = 0x81
code_byte err_malformed_protocol_name = 0x81
code_byte err_malformed_protocol_version = 0x81
code_byte err_malformed_flags = 0x81
code_byte err_malformed_keepalive = 0x81
code_byte err_malformed_packet_id = 0x81
code_byte err_malformed_topic = 0x81
code_byte err_malformed_will_topic = 0x81
code_byte err_malformed_will_payload = 0x81
code_byte err_malformed_username = 0x81
code_byte err_malformed_password = 0x81
code_byte err_malformed_qos = 0x81
code_byte err_malformed_offset_uint_out_of_range = 0x81
code_byte err_malformed_offset_bytes_out_of_range = 0x81
code_byte err_malformed_offset_byte_out_of_range = 0x81
code_byte err_malformed_offset_bool_out_of_range = 0x81
code_byte err_malformed_invalid_utf8 = 0x81
code_byte err_malformed_variable_byte_integer = 0x81
code_byte err_malformed_bad_property = 0x81
code_byte err_malformed_properties = 0x81
code_byte err_malformed_will_properties = 0x81
code_byte err_malformed_session_present = 0x81
code_byte err_malformed_reason_code = 0x81
code_byte err_protocol_violation = 0x82
code_byte err_protocol_violation_protocol_name = 0x82
code_byte err_protocol_violation_protocol_version = 0x82
code_byte err_protocol_violation_reserved_bit = 0x82
code_byte err_protocol_violation_flag_no_username = 0x82
code_byte err_protocol_violation_flag_no_password = 0x82
code_byte err_protocol_violation_username_no_flag = 0x82
code_byte err_protocol_violation_password_no_flag = 0x82
code_byte err_protocol_violation_password_too_long = 0x82
code_byte err_protocol_violation_username_too_long = 0x82
code_byte err_protocol_violation_no_packet_id = 0x82
code_byte err_protocol_violation_surplus_packet_id = 0x82
code_byte err_protocol_violation_qos_out_of_range = 0x82
code_byte err_protocol_violation_second_connect = 0x82
code_byte err_protocol_violation_zero_non_zero_expiry = 0x82
code_byte err_protocol_violation_require_first_connect = 0x82
code_byte err_protocol_violation_will_flag_no_payload = 0x82
code_byte err_protocol_violation_will_flag_surplus_retain = 0x82
code_byte err_protocol_violation_surplus_wildcard = 0x82
code_byte err_protocol_violation_surplus_sub_id = 0x82
code_byte err_protocol_violation_invalid_topic = 0x82
code_byte err_protocol_violation_invalid_shared_no_local = 0x82
code_byte err_protocol_violation_no_filters = 0x82
code_byte err_protocol_violation_invalid_reason = 0x82
code_byte err_protocol_violation_oversize_sub_id = 0x82
code_byte err_protocol_violation_dup_no_qos = 0x82
code_byte err_protocol_violation_unsupported_property = 0x82
code_byte err_protocol_violation_no_topic = 0x82
code_byte err_implementation_specific_error = 0x83
code_byte err_reject_packet = 0x83
code_byte err_unsupported_protocol_version = 0x84
code_byte err_client_identifier_not_valid = 0x85
code_byte err_client_identifier_too_long = 0x85
code_byte err_bad_username_or_password = 0x86
code_byte err_not_authorized = 0x87
code_byte err_server_unavailable = 0x88
code_byte err_server_busy = 0x89
code_byte err_banned = 0x8a
code_byte err_server_shutting_down = 0x8b
code_byte err_bad_authentication_method = 0x8c
code_byte err_keep_alive_timeout = 0x8d
code_byte err_session_taken_over = 0x8e
code_byte err_topic_filter_invalid = 0x8f
code_byte err_topic_name_invalid = 0x90
code_byte err_packet_identifier_in_use = 0x91
code_byte err_packet_identifier_not_found = 0x92
code_byte err_receive_maximum = 0x93
code_byte err_topic_alias_invalid = 0x94
code_byte err_packet_too_large = 0x95
code_byte err_message_rate_too_high = 0x96
code_byte err_quota_exceeded = 0x97
code_byte err_pending_client_writes_exceeded = 0x97
code_byte err_administrative_action = 0x98
code_byte err_payload_format_invalid = 0x99
code_byte err_retain_not_supported = 0x9a
code_byte err_qos_not_supported = 0x9b
code_byte err_use_another_server = 0x9c
code_byte err_server_moved = 0x9d
code_byte err_shared_subscriptions_not_supported = 0x9e
code_byte err_connection_rate_exceeded = 0x9f
code_byte err_max_connect_time = 0xa0
code_byte err_subscription_identifiers_not_supported = 0xa1
code_byte err_wildcard_subscriptions_not_supported = 0xa2
code_byte err_inline_subscription_handler_invalid = 0xa3
code_byte err3_unsupported_protocol_version = 0x1
code_byte err3_client_identifier_not_valid = 0x2
code_byte err3_server_unavailable = 0x3
code_byte err_malformed_username_or_password = 0x4
code_byte err3_not_authorized = 0x5

unfoldable pub reason : Code → String
reason code_success_ignore = "ignore packet"
reason code_success = "success"
reason code_disconnect = "disconnected"
reason code_granted_qos0 = "granted qos 0"
reason code_granted_qos1 = "granted qos 1"
reason code_granted_qos2 = "granted qos 2"
reason code_disconnect_will_message = "disconnect with will message"
reason code_no_matching_subscribers = "no matching subscribers"
reason code_no_subscription_existed = "no subscription existed"
reason code_continue_authentication = "continue authentication"
reason code_re_authenticate = "re-authenticate"
reason err_unspecified_error = "unspecified error"
reason err_malformed_packet = "malformed packet"
reason err_malformed_protocol_name = "malformed packet: protocol name"
reason err_malformed_protocol_version = "malformed packet: protocol version"
reason err_malformed_flags = "malformed packet: flags"
reason err_malformed_keepalive = "malformed packet: keepalive"
reason err_malformed_packet_id = "malformed packet: packet identifier"
reason err_malformed_topic = "malformed packet: topic"
reason err_malformed_will_topic = "malformed packet: will topic"
reason err_malformed_will_payload = "malformed packet: will message"
reason err_malformed_username = "malformed packet: username"
reason err_malformed_password = "malformed packet: password"
reason err_malformed_qos = "malformed packet: qos"
reason err_malformed_offset_uint_out_of_range = "malformed packet: offset uint out of range"
reason err_malformed_offset_bytes_out_of_range = "malformed packet: offset bytes out of range"
reason err_malformed_offset_byte_out_of_range = "malformed packet: offset byte out of range"
reason err_malformed_offset_bool_out_of_range = "malformed packet: offset boolean out of range"
reason err_malformed_invalid_utf8 = "malformed packet: invalid utf-8 string"
reason err_malformed_variable_byte_integer = "malformed packet: variable byte integer out of range"
reason err_malformed_bad_property = "malformed packet: unknown property"
reason err_malformed_properties = "malformed packet: properties"
reason err_malformed_will_properties = "malformed packet: will properties"
reason err_malformed_session_present = "malformed packet: session present"
reason err_malformed_reason_code = "malformed packet: reason code"
reason err_protocol_violation = "protocol violation"
reason err_protocol_violation_protocol_name = "protocol violation: protocol name"
reason err_protocol_violation_protocol_version = "protocol violation: protocol version"
reason err_protocol_violation_reserved_bit = "protocol violation: reserved bit not 0"
reason err_protocol_violation_flag_no_username =
    "protocol violation: username flag set but no value"
reason err_protocol_violation_flag_no_password =
    "protocol violation: password flag set but no value"
reason err_protocol_violation_username_no_flag = "protocol violation: username set but no flag"
reason err_protocol_violation_password_no_flag = "protocol violation: username set but no flag"
reason err_protocol_violation_password_too_long = "protocol violation: password too long"
reason err_protocol_violation_username_too_long = "protocol violation: username too long"
reason err_protocol_violation_no_packet_id = "protocol violation: missing packet id"
reason err_protocol_violation_surplus_packet_id = "protocol violation: surplus packet id"
reason err_protocol_violation_qos_out_of_range = "protocol violation: qos out of range"
reason err_protocol_violation_second_connect = "protocol violation: second connect packet"
reason err_protocol_violation_zero_non_zero_expiry = "protocol violation: non-zero expiry"
reason err_protocol_violation_require_first_connect =
    "protocol violation: first packet must be connect"
reason err_protocol_violation_will_flag_no_payload = "protocol violation: will flag no payload"
reason err_protocol_violation_will_flag_surplus_retain =
    "protocol violation: will flag surplus retain"
reason err_protocol_violation_surplus_wildcard = "protocol violation: topic contains wildcards"
reason err_protocol_violation_surplus_sub_id =
    "protocol violation: contained subscription identifier"
reason err_protocol_violation_invalid_topic = "protocol violation: invalid topic"
reason err_protocol_violation_invalid_shared_no_local =
    "protocol violation: invalid shared no local"
reason err_protocol_violation_no_filters = "protocol violation: must contain at least one filter"
reason err_protocol_violation_invalid_reason = "protocol violation: invalid reason"
reason err_protocol_violation_oversize_sub_id = "protocol violation: oversize subscription id"
reason err_protocol_violation_dup_no_qos = "protocol violation: dup true with no qos"
reason err_protocol_violation_unsupported_property = "protocol violation: unsupported property"
reason err_protocol_violation_no_topic = "protocol violation: no topic or alias"
reason err_implementation_specific_error = "implementation specific error"
reason err_reject_packet = "packet rejected"
reason err_unsupported_protocol_version = "unsupported protocol version"
reason err_client_identifier_not_valid = "client identifier not valid"
reason err_client_identifier_too_long = "client identifier too long"
reason err_bad_username_or_password = "bad username or password"
reason err_not_authorized = "not authorized"
reason err_server_unavailable = "server unavailable"
reason err_server_busy = "server busy"
reason err_banned = "banned"
reason err_server_shutting_down = "server shutting down"
reason err_bad_authentication_method = "bad authentication method"
reason err_keep_alive_timeout = "keep alive timeout"
reason err_session_taken_over = "session takeover"
reason err_topic_filter_invalid = "topic filter invalid"
reason err_topic_name_invalid = "topic name invalid"
reason err_packet_identifier_in_use = "packet identifier in use"
reason err_packet_identifier_not_found = "packet identifier not found"
reason err_receive_maximum = "receive maximum exceeded"
reason err_topic_alias_invalid = "topic alias invalid"
reason err_packet_too_large = "packet too large"
reason err_message_rate_too_high = "message rate too high"
reason err_quota_exceeded = "quota exceeded"
reason err_pending_client_writes_exceeded = "too many pending writes"
reason err_administrative_action = "administrative action"
reason err_payload_format_invalid = "payload format invalid"
reason err_retain_not_supported = "retain not supported"
reason err_qos_not_supported = "qos not supported"
reason err_use_another_server = "use another server"
reason err_server_moved = "server moved"
reason err_shared_subscriptions_not_supported = "shared subscriptions not supported"
reason err_connection_rate_exceeded = "connection rate exceeded"
reason err_max_connect_time = "maximum connect time"
reason err_subscription_identifiers_not_supported = "subscription identifiers not supported"
reason err_wildcard_subscriptions_not_supported = "wildcard subscriptions not supported"
reason err_inline_subscription_handler_invalid = "inline subscription handler not valid."
reason err3_unsupported_protocol_version = ""
reason err3_client_identifier_not_valid = ""
reason err3_server_unavailable = ""
reason err_malformed_username_or_password = ""
reason err3_not_authorized = ""

-- `V5CodesToV3`: the MQTT 3 return code of a Connack, where there is one.
unfoldable pub v5_codes_to_v3 : Code → Option Code
v5_codes_to_v3 err_unsupported_protocol_version = some err3_unsupported_protocol_version
v5_codes_to_v3 err_client_identifier_not_valid = some err3_client_identifier_not_valid
v5_codes_to_v3 err_server_unavailable = some err3_server_unavailable
v5_codes_to_v3 err_malformed_username = some err_malformed_username_or_password
v5_codes_to_v3 err_malformed_password = some err_malformed_username_or_password
v5_codes_to_v3 err_bad_username_or_password = some err3_not_authorized
v5_codes_to_v3 _ = none

-- `QosCodes`, for the granted qos bytes.
unfoldable pub qos_codes : ℕ → Option Code
qos_codes zero = some code_granted_qos0
qos_codes (suc zero) = some code_granted_qos1
qos_codes (suc (suc zero)) = some code_granted_qos2
qos_codes _ = none
