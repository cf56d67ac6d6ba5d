-- ===== src/Modules/PropertyValidator/Budget.antt =====
-- The cumulative budget over a whole history of publishes and disconnects.
use mqtt_protocol_v.Common.{
  ℕ, ◌+◌, ◌≤◌, ◌<◌, ◌≡◌, ◌≢◌, refl, true, false, ◌&&◌, Option, none, some, List, [], ◌∷◌, arith,
  if◌then◌else◌, Bool-cases, ◌⊎◌, inl, inr,
}
use mqtt_protocol_v.Common.Equality.{Bytes, bytes_eq, bytes_eq_iff, bytes_instance}
use mqtt_protocol_v.Common.Map.{lookup-insert, lookup-delete}
use mqtt_protocol_v.Packets.UserProperty.{UserProperty}
use mqtt_protocol_v.Modules.PropertyValidator.{
  PropertyConfig, ValidatorHook, fresh, sizes, charge, on_publish, on_disconnect, budget_of,
}
use mqtt_protocol_v.Modules.PropertyValidator.Checks.{payload, sizes-payload}

pub data Event : Type 0 where
  publish : Bytes → List UserProperty → Event
  disconnect : Bytes → Event

unfoldable pub step : ValidatorHook → Event → ValidatorHook
step h (publish id props) = (on_publish h id props).0
step h (disconnect id) = on_disconnect h id

unfoldable pub run : ValidatorHook → List Event → ValidatorHook
unfolding step
run h [] = h
run h (e ∷ es) = run (step h e) es

config-on_publish :
    (h : ValidatorHook) (id : Bytes) (props : List UserProperty)
    → (on_publish h id props).0.config ≡ h.config
unfolding on_publish
config-on_publish h id [] = refl
config-on_publish h id (p ∷ ps) = ground arith

budget-charge_other :
    (h : ValidatorHook) (id j : Bytes) (o : Option ℕ)
    → id ≢ j
    → budget_of (charge h id o).0 j ≡ budget_of h j
unfolding charge
budget-charge_other h id j none ne = refl
budget-charge_other h id j (some n) ne =
    ground (arith, lookup-insert id j (budget_of h id + n) h.client_budgets, bytes_eq_iff id j)

budget-charge_self :
    (h : ValidatorHook) (id : Bytes) (o : Option ℕ)
    → budget_of h id ≤ budget_of (charge h id o).0 id
unfolding charge
budget-charge_self h id none = omega arith
budget-charge_self h id (some n) =
    ground (arith, lookup-insert id id (budget_of h id + n) h.client_budgets, bytes_eq_iff id id)

charge-passed :
    (h : ValidatorHook) (id : Bytes) (n : ℕ)
    → (charge h id (some n)).1 ≡ true
    → (budget_of (charge h id (some n)).0 id ≡ budget_of h id + n)
      × (budget_of h id + n ≤ h.config.max_client_budget)
unfolding charge
charge-passed h id n e =
    ground (arith, lookup-insert id id (budget_of h id + n) h.client_budgets, bytes_eq_iff id id)

budget-publish_other :
    (h : ValidatorHook) (id j : Bytes) (props : List UserProperty)
    → id ≢ j
    → budget_of (on_publish h id props).0 j ≡ budget_of h j
unfolding on_publish
budget-publish_other h id j [] ne = refl
budget-publish_other h id j (p ∷ ps) ne =
    let h' = record h { packets_checked = h.packets_checked + 1 } in
    ground (arith, budget-charge_other h' id j (sizes h.config (p ∷ ps) 0) ne)

budget-publish_self :
    (h : ValidatorHook) (id : Bytes) (props : List UserProperty)
    → budget_of h id ≤ budget_of (on_publish h id props).0 id
unfolding on_publish
budget-publish_self h id [] = omega arith
budget-publish_self h id (p ∷ ps) =
    let h' = record h { packets_checked = h.packets_checked + 1 } in
    ground (arith, budget-charge_self h' id (sizes h.config (p ∷ ps) 0))

-- The bytes of user properties that passed for one client since its last disconnect, over a
-- history of events of all clients; `acc` is the count before.
pub admitted : ValidatorHook → Bytes → ℕ → List Event → ℕ
admitted h id acc [] = acc
admitted h id acc (publish j props ∷ es) =
    admitted (step h (publish j props)) id
      (if bytes_eq j id && (on_publish h j props).1 then acc + payload props else acc) es
admitted h id acc (disconnect j ∷ es) =
    admitted (step h (disconnect j)) id (if bytes_eq j id then 0 else acc) es

charge_total :
    (h : ValidatorHook) (id : Bytes) (acc : ℕ) (props : List UserProperty)
    → acc ≤ budget_of h id
    → (o : Option ℕ) → sizes h.config props 0 ≡ o
    → (charge h id o).1 ≡ true
    → (acc + payload props ≤ budget_of (charge h id o).0 id)
      × (acc + payload props ≤ h.config.max_client_budget)
charge_total h id acc props le none e p = unfold charge in cc
charge_total h id acc props le (some n) e p =
    omega (arith, charge-passed h id n p, sizes-payload h.config props 0 n e)

publish_passed :
    (h : ValidatorHook) (id : Bytes) (acc : ℕ) (props : List UserProperty)
    → acc ≤ budget_of h id
    → acc ≤ h.config.max_client_budget
    → (on_publish h id props).1 ≡ true
    → (acc + payload props ≤ budget_of (on_publish h id props).0 id)
      × (acc + payload props ≤ h.config.max_client_budget)
unfolding on_publish
publish_passed h id acc [] le room p = omega arith
publish_passed h id acc (p ∷ ps) le room e =
    let h' = record h { packets_checked = h.packets_checked + 1 } in
    ground (arith, charge_total h' id acc (p ∷ ps) le (sizes h.config (p ∷ ps) 0) refl)

publish_step :
    (h : ValidatorHook) (id : Bytes) (acc : ℕ) (j : Bytes) (props : List UserProperty)
    → acc ≤ budget_of h id
    → acc ≤ h.config.max_client_budget
    → let h' = (on_publish h j props).0 in
      let acc' = if bytes_eq j id && (on_publish h j props).1 then acc + payload props else acc in
      (acc' ≤ budget_of h' id) × (acc' ≤ h.config.max_client_budget)
publish_step h id acc j props le room = elim (Bool-cases (bytes_eq j id)) [
  | inl same ↦
      let e : j ≡ id = (bytes_eq_iff j id).0 same in
      rw (same, e) (own (Bool-cases (on_publish h id props).1))
  | inr other ↦
      rw (other, budget-publish_other h j id props (λ e. cc ((bytes_eq_iff j id).1 e))) (le, room)
]
  where
    own :
        (((on_publish h id props).1 ≡ true) ⊎ ((on_publish h id props).1 ≡ false))
        → ((if (on_publish h id props).1 then acc + payload props else acc)
            ≤ budget_of (on_publish h id props).0 id)
          × ((if (on_publish h id props).1 then acc + payload props else acc)
              ≤ h.config.max_client_budget)
    own (inl p) = rw p (publish_passed h id acc props le room p)
    own (inr p) = rw p (omega (arith, budget-publish_self h id props))

disconnect_step :
    (h : ValidatorHook) (id : Bytes) (acc : ℕ) (j : Bytes)
    → acc ≤ budget_of h id
    → acc ≤ h.config.max_client_budget
    → ((if bytes_eq j id then 0 else acc) ≤ budget_of (on_disconnect h j) id)
      × ((if bytes_eq j id then 0 else acc) ≤ (on_disconnect h j).config.max_client_budget)
unfolding on_disconnect budget_of
disconnect_step h id acc j le room = ground (arith, lookup-delete j id h.client_budgets)

admitted_from :
    (h : ValidatorHook) (id : Bytes) (acc : ℕ) (es : List Event)
    → acc ≤ budget_of h id
    → acc ≤ h.config.max_client_budget
    → admitted h id acc es ≤ h.config.max_client_budget
unfolding admitted step on_disconnect
admitted_from h id acc [] le room = room
admitted_from h id acc (publish j props ∷ es) le room =
    let (le', room') = publish_step h id acc j props le room in
    rw (config-on_publish h j props) at
      (admitted_from (on_publish h j props).0 id _ es le' (rw (config-on_publish h j props) room'))
admitted_from h id acc (disconnect j ∷ es) le room =
    admitted_from (on_disconnect h j) id _ es (disconnect_step h id acc j le room).0
      (disconnect_step h id acc j le room).1

-- Whatever clients publish and disconnect in whatever order from the hook's start, between two disconnects of a client
-- the user properties that pass for it come to at most `MaxClientBudget` bytes.
pub admitted-le-budget :
    (c : PropertyConfig) (id : Bytes) (es : List Event)
    → admitted (fresh c) id 0 es ≤ c.max_client_budget
admitted-le-budget c id es = admitted_from (fresh c) id 0 es (omega arith) (omega arith)

-- No event is a disconnect of this client.
abbrev pub Stays : Bytes → List Event → Type 0
Stays id [] = Unit
Stays id (publish j props ∷ es) = Stays id es
Stays id (disconnect j ∷ es) = (j ≢ id) × Stays id es

budget-publish_mono :
    (h : ValidatorHook) (id j : Bytes) (props : List UserProperty)
    → budget_of h id ≤ budget_of (on_publish h j props).0 id
budget-publish_mono h id j props = elim (Bool-cases (bytes_eq j id)) [
  | inl same ↦ rw ((bytes_eq_iff j id).0 same) (budget-publish_self h id props)
  | inr other ↦
      rw (budget-publish_other h j id props (λ e. cc ((bytes_eq_iff j id).1 e))) (omega arith)
]

exhausted_run :
    (h : ValidatorHook) (id : Bytes) (es : List Event)
    → Stays id es
    → h.config.max_client_budget < budget_of h id
    → (run h es).config.max_client_budget < budget_of (run h es) id
unfolding run step
exhausted_run h id [] stays over = over
exhausted_run h id (publish j props ∷ es) stays over =
    exhausted_run (on_publish h j props).0 id es stays
      (rw (config-on_publish h j props) (omega (arith, budget-publish_mono h id j props)))
exhausted_run h id (disconnect j ∷ es) (ne, stays) over =
    exhausted_run (on_disconnect h j) id es stays (
      unfold on_disconnect budget_of in
      ground (arith, lookup-delete j id h.client_budgets, bytes_eq_iff j id))

over_budget :
    (h : ValidatorHook) (id : Bytes) (o : Option ℕ)
    → h.config.max_client_budget < budget_of h id
    → (charge h id o).1 ≡ false
unfolding charge
over_budget h id none over = refl
over_budget h id (some n) over = ground arith

-- A client that has been charged more than its budget has every further packet with user
-- properties refused until it disconnects, whatever it and the other clients do meanwhile.
pub exhausted-Stays :
    (h : ValidatorHook) (id : Bytes) (es : List Event) (p : UserProperty) (ps : List UserProperty)
    → h.config.max_client_budget < budget_of h id
    → Stays id es
    → (on_publish (run h es) id (p ∷ ps)).1 ≡ false
unfolding on_publish
exhausted-Stays h id es p ps over stays =
    let s = run h es in
    let s' = record s { packets_checked = s.packets_checked + 1 } in
    ground (arith, over_budget s' id (sizes s.config (p ∷ ps) 0) (exhausted_run h id es stays over))
