-- ===== src/Server/Delivery/Keeping.antt =====
-- What a delivery leaves as it is in the in-flight store of a client, whoever it goes to.
use mqtt_protocol_v.Common.{
  ℕ, zero, suc, ◌+◌, ◌%◌, ◌^◌, ◌≡◌, refl, Bool, true, false, not, ◌&&◌, ◌||◌, Option, none, some,
  [], ◌∷◌, ◌++◌, ◌==◌, ltb, leb, length, arith, Bool-cases, inl, inr,
}
use mqtt_protocol_v.Common.Equality.{Bytes, bytes_eq, nat_eq, bytes_instance}
use mqtt_protocol_v.Common.Int.{negsuc}
use mqtt_protocol_v.Common.Map.{has}
use mqtt_protocol_v.Packets.Errors.{Result, ok, err}
use mqtt_protocol_v.Packets.Packet.{Packet, Subscription}
use mqtt_protocol_v.Session.Aliases.{set_outbound}
use mqtt_protocol_v.Session.Inflight.{
  Inflight, get, set, delete, decrease_send_quota, increase_send_quota,
}
use mqtt_protocol_v.Session.PacketIds.{search, next_packet_id}
use mqtt_protocol_v.Server.State.{World, Client, Env, update_client, with_inflight}
use mqtt_protocol_v.Server.Hooks.{on_acl_check}
use mqtt_protocol_v.Server.Acks.{under_way}
use mqtt_protocol_v.Server.Delivery.{
  queue_out, take_id, send_with_id, by_next_id, send, publish_to_client, with_alias, with_id,
  shaped,
}

-- A property of an in-flight store that changes under other ids leave as it is: `Free n` says that
-- it does not depend on what is under way with the id `n`.
pub record Stable (Q : Inflight → Type 0) (Free : ℕ → Type 0) : Type 0 where
  pub fresh : (i : Inflight) (n : ℕ) → Q i → has (get i n) ≡ false → Free n
  pub setting : (i : Inflight) (m : Packet) → Free m.packet_id → Q i → Q (set i m).0
  pub deleting : (i : Inflight) (n : ℕ) → Free n → Q i → Q (delete i n).0
  pub taking : (i : Inflight) → Q i → Q (decrease_send_quota i)
  pub giving : (i : Inflight) → Q i → Q (increase_send_quota i)

search-fresh :
    (fuel : ℕ) (i : Inflight) (maximum started id : ℕ) (overflowed : Bool) (n : ℕ)
    → search fuel i maximum started id overflowed ≡ some (ok n)
    → has (get i (n % 2 ^ 16)) ≡ false
unfolding search
search-fresh zero i maximum started id overflowed n e = ground arith
search-fresh (suc fuel) i maximum started id overflowed n e = ground (
  arith,
  search-fresh fuel i maximum started 0 true n,
  search-fresh fuel i maximum started (id + 1) overflowed n,
)

next-fresh :
    (i : Inflight) (maximum packet_id n : ℕ)
    → next_packet_id i maximum packet_id ≡ some (ok n)
    → has (get i (n % 2 ^ 16)) ≡ false
unfolding next_packet_id
next-fresh i maximum packet_id n e =
    search-fresh (maximum + 3) i maximum packet_id packet_id false n e

module _ {Q : Inflight → Type 0} {Free : ℕ → Type 0} (stable : Stable Q Free) (r : ℕ)
    (b : Bool) where
  -- the property of the store of the client at hand, and whether that client is the inline one
  abbrev pub Holds : World → Type 0
  Holds w = ((w.heap r).inline ≡ b) × Q (w.heap r).inflight

  pub with_inflight-Holds :
      (cl : ℕ) (f : Inflight → Inflight) (w : World)
      → (r ≡ cl → Q (w.heap r).inflight → Q (f (w.heap r).inflight))
      → Holds w
      → Holds (with_inflight cl f w)
  with_inflight-Holds cl f w step h = elim (Bool-cases (r == cl)) [
    | inl same ↦ rw same (h.0, step (ground (arith, same)) h.1)
    | inr apart ↦ rw apart h
  ]

  pub update_client-Holds :
      (cl : ℕ) (f : Client → Client) (w : World)
      → ((c : Client) → ((f c).inflight ≡ c.inflight) × ((f c).inline ≡ c.inline))
      → Holds w
      → Holds (update_client cl f w)
  update_client-Holds cl f w same h = elim (Bool-cases (r == cl)) [
    | inl here ↦ rw here (rw ((same (w.heap r)).0, (same (w.heap r)).1) h)
    | inr apart ↦ rw apart h
  ]

  queue_out-Holds :
      (env : Env) (cl : ℕ) (pk out : Packet) (w : World)
      → (r ≡ cl → ltb 0 out.fixed_header.qos ≡ true → Free out.packet_id)
      → Holds w
      → Holds (queue_out env cl pk out w).1
  unfolding queue_out
  queue_out-Holds env cl pk out w free h =
      elim (Bool-cases (not (w.heap cl).has_conn || not (w.heap cl).is_open)) [
        | inl closed ↦ rw closed h
        | inr ready ↦
            elim (Bool-cases
              (ltb (length (w.heap cl).outbound) env.capabilities.maximum_client_writes_pending)) [
                | inl room ↦
                    rw (ready, room)
                      (update_client-Holds cl
                        (λ c. record c {
                          outbound = c.outbound ++ (out ∷ []);
                          outbound_qty = c.outbound_qty + 1;
                        })
                        w (λ c. (refl, refl)) h)
                | inr full ↦ elim (Bool-cases (ltb 0 out.fixed_header.qos)) [
                  | inl kept ↦
                      rw (ready, full, kept)
                        (with_inflight-Holds cl
                          (λ i. increase_send_quota (delete i out.packet_id).0) w
                          (λ same q. stable.giving _ (stable.deleting _ _ (free same kept) q)) h)
                  | inr plain ↦ rw (ready, full, plain) h
                ]
              ]
      ]

  take_id-Holds :
      (cl : ℕ) (out : Packet) (w : World)
      → (r ≡ cl → Free out.packet_id)
      → Holds w
      → Holds (take_id cl out w)
  unfolding take_id
  take_id-Holds cl out w free h =
      let stored : Holds (with_inflight cl (λ i. (set i out).0) w) =
        with_inflight-Holds cl (λ i. (set i out).0) w (λ same q. stable.setting _ _ (free same) q)
          h in
      elim (Bool-cases (under_way w cl out.packet_id)) [
        | inl known ↦ rw known stored
        | inr new ↦ rw new (
            with_inflight-Holds cl decrease_send_quota (with_inflight cl (λ i. (set i out).0) w)
              (λ same q. stable.taking _ q) stored)
      ]

  send_with_id-Holds :
      (env : Env) (cl : ℕ) (pk out : Packet) (n : ℕ) (w : World)
      → has (get (w.heap cl).inflight (n % 2 ^ 16)) ≡ false
      → Holds w
      → Holds (send_with_id env cl pk out n w).1
  unfolding send_with_id
  send_with_id-Holds env cl pk out n w new h =
      let out' = record out { packet_id = n % 2 ^ 16 } in
      let free : r ≡ cl → Free (n % 2 ^ 16) =
        λ same. stable.fresh (w.heap r).inflight (n % 2 ^ 16) h.1 (rw same new) in
      let w' = take_id cl out' (with_id cl n w) in
      let taken : Holds w' =
        take_id-Holds cl out' (with_id cl n w) free
          (update_client-Holds cl (λ c. record c { packet_id = n }) w (λ c. (refl, refl)) h) in
      elim (Bool-cases
        ((w.heap cl).inflight.send_quota == 0 && ltb 0 (w'.heap cl).inflight.maximum_send_quota)) [
          | inl held ↦ rw held (
              with_inflight-Holds cl (λ i. (set i (record out' { expiry = negsuc 0 })).0) w'
                (λ same q. stable.setting _ _ (free same) q) taken)
          | inr goes ↦ rw goes (queue_out-Holds env cl pk out' w' (λ same kept. free same) taken)
        ]

  by_next_id-Holds :
      (env : Env) (cl : ℕ) (pk out : Packet) (maximum : ℕ) (o : Option (Result ℕ)) (w : World)
      → next_packet_id (w.heap cl).inflight maximum (w.heap cl).packet_id ≡ o
      → Holds w
      → Holds (by_next_id env cl pk out o w).1
  unfolding by_next_id
  by_next_id-Holds env cl pk out maximum none w is h = h
  by_next_id-Holds env cl pk out maximum (some (err e)) w is h = h
  by_next_id-Holds env cl pk out maximum (some (ok n)) w is h =
      send_with_id-Holds env cl pk out n w (next-fresh (w.heap cl).inflight maximum _ n is) h

  send-Holds :
      (env : Env) (cl : ℕ) (pk out : Packet) (w : World) → Holds w → Holds (send env cl pk out w).1
  unfolding send
  send-Holds env cl pk out w h = elim (Bool-cases (ltb 0 out.fixed_header.qos)) [
    | inl kept ↦
        elim (Bool-cases
          (leb env.capabilities.maximum_inflight (length (w.heap cl).inflight.internal))) [
            | inl full ↦ rw (kept, full) h
            | inr room ↦
                rw (kept, room)
                  (by_next_id-Holds env cl pk out env.capabilities.maximum_packet_id
                    (next_packet_id (w.heap cl).inflight env.capabilities.maximum_packet_id
                      (w.heap cl).packet_id)
                    w refl h)
          ]
    | inr plain ↦ rw plain (queue_out-Holds env cl pk out w (λ same kept. cc) h)
  ]

  with_alias-Holds :
      (cl : ℕ) (topic : Bytes) (out : Packet) (w : World)
      → Holds w
      → Holds (with_alias cl topic out w).1
  unfolding with_alias
  with_alias-Holds cl topic out w h =
      let aliases = (set_outbound (w.heap cl).outbound_aliases topic).0 in
      elim (Bool-cases (ltb 0 (w.heap cl).props.topic_alias_maximum)) [
        | inl takes ↦ rw takes (
            update_client-Holds cl (λ c. record c { outbound_aliases = aliases }) w
              (λ c. (refl, refl)) h)
        | inr none_taken ↦ rw none_taken h
      ]

  pub publish_to_client-Holds :
      (env : Env) (cl : ℕ) (sub : Subscription) (pk : Packet) (w : World)
      → Holds w
      → Holds (publish_to_client env cl sub pk w).1
  unfolding publish_to_client
  publish_to_client-Holds env cl sub pk w h =
      elim (Bool-cases (sub.no_local && bytes_eq pk.origin (w.heap cl).id)) [
        | inl own ↦ rw own h
        | inr foreign ↦
            elim (Bool-cases (not (on_acl_check env.hooks (w, cl) pk.topic_name false))) [
              | inl refused ↦ rw (foreign, refused) h
              | inr allowed ↦
                  rw (foreign, allowed)
                    (send-Holds env cl pk _ _
                      (with_alias-Holds cl pk.topic_name (shaped env (w.heap cl) sub pk) w h))
            ]
      ]
