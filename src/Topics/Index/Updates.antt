-- ===== src/Topics/Index/Updates.antt =====
-- What the index holds for each address, before and after its operations.
use mqtt_protocol_v.Common.{
  ◌≡◌, refl, sym, ap, ◌∙◌, not, ◌&&◌, Option, none, some, List, Bool-cases, Option-cases, inl, inr,
  if◌then◌else◌,
}
use mqtt_protocol_v.Common.Equality.{Bytes, bytes_eq, bytes_instance}
use mqtt_protocol_v.Common.Map.{has, lookup, delete, lookup-insert, lookup-delete}
use mqtt_protocol_v.Packets.Packet.{Subscription}
use mqtt_protocol_v.Topics.Levels.{levels}
use mqtt_protocol_v.Topics.Filters.{is_shared_filter}
use mqtt_protocol_v.Topics.Stores.{delete_shared}
use mqtt_protocol_v.Topics.Stores.Groups.{get_shared-add_shared, get_shared-delete_shared}
use mqtt_protocol_v.Topics.Tree.{Node, new_node, Particle, seek, change, change_trim, node_at}
use mqtt_protocol_v.Topics.Tree.Nodes.{
  node_at-change_self, node_at-change_other, node_at-change_trim_self, node_at-change_trim_other,
}
use mqtt_protocol_v.Topics.Index.{
  TopicsIndex, group_of, with_client, without_client, with_shared, without_shared, subscribe,
  unsubscribe, unsubscribe_at,
}
use mqtt_protocol_v.Common.{◌≢◌}
use mqtt_protocol_v.Topics.Index.Address.{
  Address, shared_address, plain_address, address, held_in, held, path_eq, group_eq, same_address,
  path_eq_iff, shown, blank_shown,
}

-- A changed tree that shows a change of one node: the entries of one client in one group.
module _ (x : TopicsIndex) (root : Particle) (a b : Address) (client j : Bytes)
    (v : Option Subscription) where
  moved :
      (f : Node → Node)
      → (a.path ≡ b.path
          → shown b.group j (node_at b.path root) ≡ shown b.group j (f (node_at b.path x.root)))
      → (b.path ≢ a.path
          → shown b.group j (node_at b.path root) ≡ shown b.group j (node_at b.path x.root))
      → ((n : Node)
          → held_in (f n) b.group j
            ≡ (if group_eq a.group b.group && bytes_eq client j then v else held_in n b.group j))
      → held (record x { root = root }) b j
        ≡ (if same_address a b && bytes_eq client j then v else held x b j)
  moved f here there node = elim (Bool-cases (path_eq a.path b.path)) [
    | inl same ↦
        here ((path_eq_iff a.path b.path).0 same) ∙ node (node_at b.path x.root) ∙ rw same refl
    | inr apart ↦ there (λ e. cc ((path_eq_iff a.path b.path).1 (sym e), apart)) ∙ rw apart refl
  ]

held_in-with_client :
    (client j : Bytes) (sub : Subscription) (g : Option Bytes) (n : Node)
    → held_in (with_client client sub n) g j
      ≡ (if group_eq none g && bytes_eq client j then some sub else held_in n g j)
held_in-with_client client j sub none n = lookup-insert client j sub n.subscriptions
held_in-with_client client j sub (some g) n = refl

held_in-without_client :
    (client j : Bytes) (g : Option Bytes) (n : Node)
    → held_in (without_client client n) g j
      ≡ (if group_eq none g && bytes_eq client j then none else held_in n g j)
held_in-without_client client j none n = lookup-delete client j n.subscriptions
held_in-without_client client j (some g) n = refl

held_in-with_shared :
    (group client j : Bytes) (sub : Subscription) (g : Option Bytes) (n : Node)
    → held_in (with_shared group client sub n) g j
      ≡ (if group_eq (some group) g && bytes_eq client j then some sub else held_in n g j)
held_in-with_shared group client j sub none n = refl
held_in-with_shared group client j sub (some g) n =
    get_shared-add_shared group client g j sub n.shared

held_in-without_shared :
    (group client j : Bytes) (g : Option Bytes) (n : Node)
    → held_in (without_shared group client n) g j
      ≡ (if group_eq (some group) g && bytes_eq client j then none else held_in n g j)
held_in-without_shared group client j none n = refl
held_in-without_shared group client j (some g) n =
    get_shared-delete_shared group client g j n.shared

-- the entries after a change at a path, and after a change with a trim
module _ (x : TopicsIndex) (a b : Address) (client j : Bytes) (v : Option Subscription)
    (f : Node → Node)
    (node : (n : Node)
      → held_in (f n) b.group j
        ≡ (if group_eq a.group b.group && bytes_eq client j then v else held_in n b.group j)) where
  held-change :
      held (record x { root = change a.path f x.root }) b j
      ≡ (if same_address a b && bytes_eq client j then v else held x b j)
  held-change =
      moved x (change a.path f x.root) a b client j v f
        (λ e. rw (← e) (ap (shown b.group j) (node_at-change_self a.path f x.root)))
        (λ other. ap (shown b.group j) (node_at-change_other a.path b.path f x.root other)) node

  held-change_trim :
      (p : Particle)
      → seek a.path x.root ≡ some p
      → held (record x { root = change_trim a.path f x.root }) b j
        ≡ (if same_address a b && bytes_eq client j then v else held x b j)
  held-change_trim p there =
      moved x (change_trim a.path f x.root) a b client j v f
        (λ e. rw (← e) (
          node_at-change_trim_self (shown b.group j) (blank_shown b.group j) a.path f x.root p
            there))
        (λ other.
          node_at-change_trim_other (shown b.group j) (blank_shown b.group j) a.path b.path f x.root
            other)
        node

  held-absent :
      seek a.path x.root ≡ none
      → f new_node ≡ new_node
      → held x b j ≡ (if same_address a b && bytes_eq client j then v else held x b j)
  held-absent nothing same =
      let empty : node_at a.path x.root ≡ new_node = unfold node_at in rw nothing refl in
      moved x x.root a b client j v f (λ e. rw (← e, empty) (ap (shown b.group j) (sym same)))
        (λ _. refl) node

  -- the particle found, changed and trimmed, or nothing done
  held-unsubscribe_at :
      f new_node ≡ new_node
      → held (unsubscribe_at x a.path f (seek a.path x.root)).0 b j
        ≡ (if same_address a b && bytes_eq client j then v else held x b j)
  unfolding unsubscribe_at
  held-unsubscribe_at same = elim (Option-cases (seek a.path x.root)) [
    | inl nothing ↦ rw (nothing, unsubscribe_at) (held-absent nothing same)
    | inr (p, there) ↦ rw (there, unsubscribe_at) (held-change_trim p there)
  ]

unsubscribe_at_answer :
    (x : TopicsIndex) (path : List Bytes) (f : Node → Node) (o : Option Particle)
    → (unsubscribe_at x path f o).1 ≡ has o
unfolding unsubscribe_at
unsubscribe_at_answer x path f none = refl
unsubscribe_at_answer x path f (some p) = refl

-- `Subscribe` writes the client's subscription at the address of its filter and changes no other; it
-- answers whether there was none.
pub held-subscribe :
    (x : TopicsIndex) (client : Bytes) (sub : Subscription) (b : Address) (j : Bytes)
    → (held (subscribe x client sub).0 b j ≡ (
        if same_address (address sub.filter) b && bytes_eq client j then some sub else held x b j))
      × ((subscribe x client sub).1 ≡ not (has (held x (address sub.filter) client)))
unfolding subscribe
held-subscribe x client sub b j = elim (Bool-cases (is_shared_filter sub.filter)) [
  | inl shared ↦
      rw (shared, subscribe)
        (
          held-change x (shared_address sub.filter) b client j (some sub)
              (with_shared (group_of sub.filter) client sub)
              (held_in-with_shared (group_of sub.filter) client j sub b.group),
          refl,
        )
  | inr plain ↦
      rw (plain, subscribe)
        (
          held-change x (plain_address sub.filter) b client j (some sub) (with_client client sub)
              (held_in-with_client client j sub b.group),
          refl,
        )
]

-- `Unsubscribe` removes the client's subscription at the address of the filter and changes no other,
-- though it trims particles; it answers whether the index has a particle there.
pub held-unsubscribe :
    (x : TopicsIndex) (filter client : Bytes) (b : Address) (j : Bytes)
    → (held (unsubscribe x filter client).0 b j
        ≡ (if same_address (address filter) b && bytes_eq client j then none else held x b j))
      × ((unsubscribe x filter client).1 ≡ has (seek (address filter).path x.root))
unfolding unsubscribe
held-unsubscribe x filter client b j = elim (Bool-cases (is_shared_filter filter)) [
  | inl shared ↦
      rw (shared, unsubscribe)
        (
          held-unsubscribe_at x (shared_address filter) b client j none
              (without_shared (group_of filter) client)
              (held_in-without_shared (group_of filter) client j b.group)
              (unfold delete_shared lookup in refl),
          unsubscribe_at_answer x (levels filter 2) _ (seek (levels filter 2) x.root),
        )
  | inr plain ↦
      rw (plain, unsubscribe)
        (
          held-unsubscribe_at x (plain_address filter) b client j none (without_client client)
              (held_in-without_client client j b.group) (unfold delete in refl),
          unsubscribe_at_answer x (levels filter 0) _ (seek (levels filter 0) x.root),
        )
]
