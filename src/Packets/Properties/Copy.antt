-- ===== src/Packets/Properties/Copy.antt =====
-- `Properties.Copy` of broker/packets/properties.go.
use mathlib.Core.List.{append_assoc, append-nil}
use mqtt_protocol_v.Common.{
  ◌≡◌, refl, Bool, true, false, List, [], ◌∷◌, ◌++◌, length, ltb, if◌then◌else◌, sym, arith, ◌∙◌,
}
use mqtt_protocol_v.Packets.UserProperty.{UserProperty}
use mqtt_protocol_v.Packets.Properties.{Properties, no_properties}

-- the struct literal at its start
copied_values : Properties → Properties
copied_values p = record no_properties {
  payload_format = p.payload_format;
  payload_format_flag = p.payload_format_flag;
  message_expiry_interval = p.message_expiry_interval;
  content_type = p.content_type;
  response_topic = p.response_topic;
  session_expiry_interval = p.session_expiry_interval;
  session_expiry_interval_flag = p.session_expiry_interval_flag;
  assigned_client_id = p.assigned_client_id;
  server_keep_alive = p.server_keep_alive;
  server_keep_alive_flag = p.server_keep_alive_flag;
  authentication_method = p.authentication_method;
  request_problem_info = p.request_problem_info;
  request_problem_info_flag = p.request_problem_info_flag;
  will_delay_interval = p.will_delay_interval;
  request_response_info = p.request_response_info;
  response_info = p.response_info;
  server_reference = p.server_reference;
  reason_string = p.reason_string;
  receive_maximum = p.receive_maximum;
  topic_alias_maximum = p.topic_alias_maximum;
  topic_alias = 0;
  maximum_qos = p.maximum_qos;
  maximum_qos_flag = p.maximum_qos_flag;
  retain_available = p.retain_available;
  retain_available_flag = p.retain_available_flag;
  maximum_packet_size = p.maximum_packet_size;
  wildcard_sub_available = p.wildcard_sub_available;
  wildcard_sub_available_flag = p.wildcard_sub_available_flag;
  sub_id_available = p.sub_id_available;
  sub_id_available_flag = p.sub_id_available_flag;
  shared_sub_available = p.shared_sub_available;
  shared_sub_available_flag = p.shared_sub_available_flag;
}

-- `append([]T{}, s...)`, where the slice is not empty
slice_copy : {A : Type 0} → List A → List A → List A
slice_copy old s = if ltb 0 (length s) then [] ++ s else old

-- the loop over the user properties
user_copy : List UserProperty → List UserProperty → List UserProperty
user_copy made [] = made
user_copy made (v ∷ vs) = user_copy (made ++ record { key = v.key; val = v.val } ∷ []) vs

unfoldable pub copy : Properties → Bool → Properties
unfolding copied_values slice_copy user_copy
copy p allow_transfer =
    let pr = copied_values p in
    let pr =
      if allow_transfer
      then record pr { topic_alias = p.topic_alias; topic_alias_flag = p.topic_alias_flag }
      else pr in
    record pr {
      correlation_data = slice_copy pr.correlation_data p.correlation_data;
      subscription_identifier = slice_copy pr.subscription_identifier p.subscription_identifier;
      authentication_data = slice_copy pr.authentication_data p.authentication_data;
      user = if ltb 0 (length p.user) then user_copy [] p.user else pr.user;
    }

slice_copy_lem : {A : Type 0} (s : List A) → slice_copy [] s ≡ s
unfolding slice_copy
slice_copy_lem [] = refl
slice_copy_lem (x ∷ s) = ground arith

user_copy-append : (made vs : List UserProperty) → user_copy made vs ≡ made ++ vs
unfolding user_copy
user_copy-append made [] = sym (append-nil made)
user_copy-append made (v ∷ vs) =
    user_copy-append (made ++ v ∷ []) vs ∙ append_assoc made (v ∷ []) vs

user_kept : (us : List UserProperty) → (if ltb 0 (length us) then user_copy [] us else []) ≡ us
user_kept [] = refl
user_kept (u ∷ us) = ground (arith, user_copy-append [] (u ∷ us))

-- A copy keeps every property but the topic alias and its flag, which it keeps where the transfer is
-- allowed and clears where it is not.
pub copy_lem :
    (p : Properties)
    → (copy p true ≡ p) × (copy p false ≡ record p { topic_alias = 0; topic_alias_flag = false })
unfolding copy copied_values
copy_lem p =
    rw
      (
        slice_copy_lem p.correlation_data,
        slice_copy_lem p.subscription_identifier,
        slice_copy_lem p.authentication_data,
        user_kept p.user,
      )
      (refl, refl)
