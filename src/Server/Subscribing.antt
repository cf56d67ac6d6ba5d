-- ===== src/Server/Subscribing.antt =====
-- `processSubscribe`, `processUnsubscribe` and `UnsubscribeClient` of broker/server.go.
pub mod Registration
use mqtt_protocol_v.Common.{ℕ, Bool, false, not, ◌&&◌, none, List, [], ◌∷◌, ltb, map, if◌then◌else◌}
use mqtt_protocol_v.Common.Equality.{Bytes, bytes_instance}
use mqtt_protocol_v.Common.Int.{incr, decr}
use mqtt_protocol_v.Common.Map
use mqtt_protocol_v.Common.Map.{Map}
use mqtt_protocol_v.Packets.Types
use mqtt_protocol_v.Packets.FixedHeader.{blank}
use mqtt_protocol_v.Packets.Codes.{
  Code, code_byte, code_success, code_granted_qos2, code_no_subscription_existed,
  err_unspecified_error, err_packet_identifier_in_use, err_topic_filter_invalid, err_not_authorized,
  err_protocol_violation_invalid_shared_no_local,
}
use mqtt_protocol_v.Packets.Packet.{Packet, Subscription, no_packet}
use mqtt_protocol_v.Packets.Properties.{no_properties}
use mqtt_protocol_v.Topics.Filters.{is_valid_filter, is_shared_filter}
use mqtt_protocol_v.Topics.Index
use mqtt_protocol_v.Server.Failures.{is_failure}
use mqtt_protocol_v.Server.Hooks.{on_acl_check, on_subscribe, on_unsubscribe}
use mqtt_protocol_v.Server.State.{
  World, Env, Action, subscribed, unsubscribed, update_client, count, notify, ◌>>◌,
}
use mqtt_protocol_v.Server.Writing.{write_packet, reason_of}
use mqtt_protocol_v.Server.Acks.{under_way}
use mqtt_protocol_v.Server.Delivery.{publish_retained_to_client}

-- the code of a request whose id is in use, or not
abbrev pub request_code : Bool → Code
request_code in_use = if in_use then err_packet_identifier_in_use else code_success

-- A filter that is granted: its code, whether the subscription existed, and the state with it.
unfoldable pub grant : Env → ℕ → Subscription → World → ℕ × Bool × World
grant env cl sub w =
    let (topics, is_new) = Index.subscribe w.topics (w.heap cl).id sub in
    let indexed = record w { topics = topics } in
    let counted =
      if is_new
      then count (λ i. record i { subscriptions = incr i.subscriptions }) indexed
      else indexed in
    (
      if ltb env.capabilities.maximum_qos sub.qos then env.capabilities.maximum_qos else sub.qos,
      not is_new,
      update_client cl (λ c. record c { subscriptions = Map.insert sub.filter sub c.subscriptions })
          counted,
    )

-- the tests of a filter of a request whose id is not in use
unfoldable pub ask : Env → ℕ → Subscription → World → ℕ × Bool × World
ask env cl sub w =
    if not (is_valid_filter sub.filter false)
    then (code_byte err_topic_filter_invalid, false, w)
    else if sub.no_local && is_shared_filter sub.filter
    then (code_byte err_protocol_violation_invalid_shared_no_local, false, w)
    else if not (on_acl_check env.hooks (w, cl) sub.filter false)
    then (
      if env.capabilities.obscure_not_authorized
          then code_byte err_unspecified_error
          else code_byte err_not_authorized,
      false,
      w,
    )
    else grant env cl sub w

-- a code for clients of version 3
pub for_version : ℕ → ℕ → ℕ
for_version protocol_version byte =
    if ltb (code_byte code_granted_qos2) byte && ltb protocol_version 5
    then code_byte err_unspecified_error
    else byte

-- the loop over the filters: the code of each, with whether its subscription existed
unfoldable pub ask_all : Env → ℕ → Bool → List Subscription → World → List (ℕ × Bool) × World
ask_all env cl in_use [] w = ([], w)
ask_all env cl in_use (sub ∷ subs) w =
    let (byte, existed, w') = ask env cl sub w in
    let (skipped, same) = ask_all env cl in_use subs w in
    let (answers, after) = ask_all env cl in_use subs w' in
    if in_use
    then ((code_byte err_packet_identifier_in_use, false) ∷ skipped, same)
    else ((for_version (w.heap cl).protocol_version byte, existed) ∷ answers, after)

-- the packet that answers a request
pub answer_packet : ℕ → Packet → Bytes → Bool → Packet
answer_packet pkt pk reason_codes in_use = record no_packet {
  fixed_header = record blank { packet_type = pkt };
  packet_id = pk.packet_id;
  reason_codes = reason_codes;
  properties = record no_properties {
    user = pk.properties.user;
    reason_string = reason_of (request_code in_use) [];
  };
}

-- the loop that sends retained messages
unfoldable pub send_retained : Env → ℕ → List Subscription → List (ℕ × Bool) → World → World
send_retained env cl [] answers w = w
send_retained env cl (sub ∷ subs) [] w = w
send_retained env cl (sub ∷ subs) ((byte, existed) ∷ answers) w =
    send_retained env cl subs answers
      (if is_failure byte then w else publish_retained_to_client env cl sub existed w)

-- `processSubscribe`, from the packet that the hooks make of it
unfoldable pub subscribe_filters : Env → ℕ → Packet → Action
subscribe_filters env cl pk w =
    let in_use = under_way w cl pk.packet_id in
    let (answers, w') = ask_all env cl in_use pk.filters w in
    let reason_codes = map (λ a. a.0) answers in
    write_packet env cl (answer_packet Types.suback pk reason_codes in_use)
      (notify (subscribed cl pk reason_codes) w')
    >> λ after. (none, send_retained env cl pk.filters answers after)

-- `processSubscribe`
unfoldable pub process_subscribe : Env → ℕ → Packet → Action
process_subscribe env cl pk w = subscribe_filters env cl (on_subscribe env.hooks (w, cl) pk) w

-- `Topics.Unsubscribe` of a client's filter, and the counter
unfoldable pub leave : Bytes → Bytes → World → Bool × World
leave filter id w =
    let (topics, found) = Index.unsubscribe w.topics filter id in
    let indexed = record w { topics = topics } in
    (
      found,
      if found
          then count (λ i. record i { subscriptions = decr i.subscriptions }) indexed
          else indexed,
    )

-- the client without a subscription
abbrev pub forget : ℕ → Bytes → World → World
forget cl filter w =
    update_client cl (λ c. record c { subscriptions = Map.delete filter c.subscriptions }) w

-- the loop over the filters
unfoldable pub leave_all : ℕ → Bool → List Subscription → World → Bytes × World
leave_all cl in_use [] w = ([], w)
leave_all cl in_use (sub ∷ subs) w =
    let (found, w') = leave sub.filter (w.heap cl).id w in
    let (skipped, same) = leave_all cl in_use subs w in
    let (bytes, after) = leave_all cl in_use subs (forget cl sub.filter w') in
    if in_use then (code_byte err_packet_identifier_in_use ∷ skipped, same) else (
      (if found then code_byte code_success else code_byte code_no_subscription_existed) ∷ bytes,
      after,
    )

-- `processUnsubscribe`
unfoldable pub process_unsubscribe : Env → ℕ → Packet → Action
process_unsubscribe env cl pk w =
    let in_use = under_way w cl pk.packet_id in
    let asked = on_unsubscribe env.hooks (w, cl) pk in
    let (reason_codes, w') = leave_all cl in_use asked.filters w in
    write_packet env cl (answer_packet Types.unsuback asked reason_codes in_use)
      (notify (unsubscribed cl asked) w')

-- the loop of `UnsubscribeClient`
pub leave_index : Bytes → Map Bytes Subscription → World → World
leave_index id [] w = w
leave_index id ((filter, sub) ∷ subs) w = leave_index id subs (leave filter id w).1

-- `UnsubscribeClient`
unfoldable pub unsubscribe_client : ℕ → World → World
unsubscribe_client cl w =
    let subs = (w.heap cl).subscriptions in
    let cleared = update_client cl (λ c. record c { subscriptions = [] }) w in
    if (w.heap cl).taken_over
    then cleared
    else notify
        (unsubscribed cl (record no_packet {
          fixed_header = record blank { packet_type = Types.unsubscribe };
          filters = map (λ e. e.1) subs;
        }))
        (leave_index (w.heap cl).id subs cleared)
