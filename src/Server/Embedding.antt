-- ===== src/Server/Embedding.antt =====
-- `Publish`, `Subscribe` and `Unsubscribe` of broker/server.go: what a program that embeds the broker
-- does with its inline client. That client is a parameter, `none` where the options do not enable it.
use mqtt_protocol_v.Common.{
  ℕ, ◌%◌, ◌^◌, Bool, false, not, Option, none, some, List, [], ◌∷◌, if◌then◌else◌,
}
use mqtt_protocol_v.Common.Equality.{Bytes}
use mqtt_protocol_v.Packets.Types
use mqtt_protocol_v.Packets.FixedHeader.{blank}
use mqtt_protocol_v.Packets.Codes.{
  code_byte, code_success, err_inline_subscription_handler_invalid, err_topic_filter_invalid,
}
use mqtt_protocol_v.Packets.Packet.{Packet, Subscription, no_packet, no_subscription}
use mqtt_protocol_v.Topics.Filters.{is_valid_filter}
use mqtt_protocol_v.Topics.Index
use mqtt_protocol_v.Topics.Messages.{messages}
use mqtt_protocol_v.Server.Failures.{inline_client_not_enabled, code_error}
use mqtt_protocol_v.Server.Hooks.{on_subscribe, on_unsubscribe}
use mqtt_protocol_v.Server.State.{
  World, Env, Action, subscribed, unsubscribed, handled_inline, notify,
}
use mqtt_protocol_v.Server.Handling.{inject_packet}

-- `if !s.Options.InlineClient`
by_inline : Option ℕ → (ℕ → Action) → Action
by_inline none go w = (some inline_client_not_enabled, w)
by_inline (some cl) go w = go cl w

-- the packet of `Publish`
inline_message : Bytes → Bytes → Bool → ℕ → Packet
inline_message topic payload retain qos = record no_packet {
  fixed_header = record blank { packet_type = Types.publish; qos = qos; retain = retain };
  topic_name = topic;
  payload = payload;
  packet_id = qos % 2 ^ 16;
}

-- `Publish`
unfoldable publish : Env → Option ℕ → Bytes → Bytes → Bool → ℕ → Action
unfolding by_inline inline_message
publish env inline topic payload retain qos =
    by_inline inline (λ cl. inject_packet env cl (inline_message topic payload retain qos))

-- the subscription of an identifier to a filter
inline_subscription : Bytes → ℕ → Subscription
inline_subscription filter id = record no_subscription { identifier = id; filter = filter }

-- the packet that the hooks see
inline_request : ℕ → Bytes → Subscription → Packet
inline_request pkt id sub = record no_packet {
  origin = id;
  fixed_header = record blank { packet_type = pkt };
  filters = sub ∷ [];
}

-- the loop over the retained messages
handle_all : Subscription → List Packet → World → World
handle_all sub [] w = w
handle_all sub (pk ∷ pks) w = handle_all sub pks (notify (handled_inline sub pk) w)

-- `Subscribe`, with whether there is a handler
unfoldable subscribe : Env → Option ℕ → Bytes → ℕ → Bool → Action
unfolding by_inline inline_subscription inline_request handle_all
subscribe env inline filter id has_handler = by_inline inline (λ cl w.
    let sub = inline_subscription filter id in
    let request = inline_request Types.subscribe (w.heap cl).id sub in
    let pk = on_subscribe env.hooks (w, cl) request in
    let w' = record w { topics = (Index.inline_subscribe w.topics sub).0 } in
    if not has_handler
    then (code_error err_inline_subscription_handler_invalid, w)
    else if not (is_valid_filter filter false)
    then (code_error err_topic_filter_invalid, w)
    else (
      none,
      handle_all sub (messages w'.topics filter)
          (notify (subscribed cl pk (code_byte code_success ∷ [])) w'),
    ))

-- `Unsubscribe`
unfoldable unsubscribe : Env → Option ℕ → Bytes → ℕ → Action
unfolding by_inline inline_subscription inline_request
unsubscribe env inline filter id = by_inline inline (λ cl w.
    let sub = inline_subscription filter id in
    let request = inline_request Types.unsubscribe (w.heap cl).id sub in
    let pk = on_unsubscribe env.hooks (w, cl) request in
    if not (is_valid_filter filter false) then (code_error err_topic_filter_invalid, w) else (
      none,
      notify (unsubscribed cl pk)
          (record w { topics = (Index.inline_unsubscribe w.topics id filter).0 }),
    ))
