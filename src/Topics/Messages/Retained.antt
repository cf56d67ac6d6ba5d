-- ===== src/Topics/Messages/Retained.antt =====
-- What `RetainMessage` leaves for `Messages` to find.
use mqtt_protocol_v.Common.{
  ◌≡◌, refl, ◌∙◌, true, false, [], ◌∷◌, ◌==◌, ltb, length, if◌then◌else◌, arith, Bool-cases, inl,
  inr,
}
use mqtt_protocol_v.Common.Equality.{Bytes, bytes_eq, bytes_eq_iff, bytes_instance}
use mqtt_protocol_v.Common.Map
use mqtt_protocol_v.Common.Map.{Map, has, lookup-insert, lookup-delete, insert}
use mqtt_protocol_v.Common.Split.{contains}
use mqtt_protocol_v.Packets.Packet.{Packet}
use mqtt_protocol_v.Topics.Index.{TopicsIndex, retain_message}
use mqtt_protocol_v.Topics.Messages.{found, messages}

-- `Messages` of a filter without wildcards
messages_exact :
    (x : TopicsIndex) (topic : Bytes)
    → (length topic == 0) ≡ false
    → contains b'#' topic ≡ false
    → contains b'+' topic ≡ false
    → messages x topic
      ≡ (if length x.retained == 0 then [] else found (Map.lookup topic x.retained))
unfolding messages
messages_exact x topic some_topic no_hash no_plus = rw (some_topic, no_hash, no_plus) refl

-- a map after a write is not empty
insert_some :
    (topic : Bytes) (pk : Packet) (m : Map Bytes Packet)
    → (length (Map.insert topic pk m) == 0) ≡ false
unfolding insert
insert_some topic pk [] = ground arith
insert_some topic pk ((k, w) ∷ m) = ground arith

-- After `RetainMessage`, `Messages` of the message's topic, which is not empty and has no wildcard,
-- is exactly that message, and is nothing where its payload was empty.
pub messages-retain_message :
    (x : TopicsIndex) (pk : Packet)
    → (length pk.topic_name == 0) ≡ false
    → contains b'#' pk.topic_name ≡ false
    → contains b'+' pk.topic_name ≡ false
    → messages (retain_message x pk).0 pk.topic_name
      ≡ (if ltb 0 (length pk.payload) then pk ∷ [] else [])
unfolding retain_message
messages-retain_message x pk some_topic no_hash no_plus =
    let topic = pk.topic_name in
    let itself : bytes_eq topic topic ≡ true = (bytes_eq_iff topic topic).1 refl in
    messages_exact (retain_message x pk).0 topic some_topic no_hash no_plus
    ∙ elim (Bool-cases (ltb 0 (length pk.payload))) [
      | inl full ↦
          let kept : (length (Map.insert topic pk x.retained) == 0) ≡ false =
            insert_some topic pk x.retained in
          rw (full, retain_message, kept)
            (rw (lookup-insert topic topic pk x.retained, itself) refl)
      | inr empty ↦
          rw (empty, retain_message)
            (rw (lookup-delete topic topic x.retained, itself) (ground arith))
    ]
