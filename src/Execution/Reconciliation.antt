-- ===== src/Execution/Reconciliation.antt =====
-- `reconcile_pending_orders` of services/layer5_execution/engine.py.
use mathlib.Core.Path.{ap, sym, ◌∙◌}
use algo_trading_platform.Base.{
  ◌≡◌, refl, false, true, Bool, ◌||◌, ◌&&◌, not, Option, none, some, List, [], ◌∷◌, String, All,
  arith, if◌then◌else◌, if_intro,
}
use algo_trading_platform.Base.Dict.{Dict, string_eq}
use algo_trading_platform.Float.{Float}
use algo_trading_platform.Store.{
  PersistedOrder, OrderStore, mark_confirmed, mark_duplicate, fetch_pending, select_status,
  update_status,
}
use algo_trading_platform.Store.Pending.{IsKeyed, update_status-IsKeyed, select_updated}
use algo_trading_platform.Execution.{OrderStatusResult, Adapter}
use algo_trading_platform.Execution.Engine.{
  ExecutionEngine, is_settled, is_duplicate, query, status_result_to_execution,
}
use algo_trading_platform.Execution.Marks.{Holds, Holds-map, Holds-weaken}
use algo_trading_platform.Execution.Submit.{
  reconcile, reconcile_with, reconcile_all, pending_of, reconcile_pending_orders,
}

-- The adapter reports the order as settled or as a duplicate.
abbrev pub is_known : {F : Type 0} → Option (OrderStatusResult F) → Bool
is_known none = false
is_known (some st) = is_settled st.status || is_duplicate st.status

All-tail :
    {A : Type 0} (P : A → Type 0) (b : Bool) (x : A) (xs : List A)
    → All P (if b then x ∷ xs else xs)
    → All P xs
All-tail P true x xs (p, h) = h
All-tail P false x xs h = h

All-head :
    {A : Type 0} (P : A → Type 0) (b : Bool) (x : A) (xs ys : List A)
    → All P (if b then x ∷ xs else xs)
    → All P ys
    → All P (if b then x ∷ ys else ys)
All-head P true x xs ys (p, h) g = (p, g)
All-head P false x xs ys h g = g

All-map :
    {A : Type 0} {P Q R : A → Type 0} (xs : List A)
    → ((x : A) → P x → Q x → R x)
    → All P xs
    → All Q xs
    → All R xs
All-map [] f h g = tt
All-map (x ∷ xs) f (p, h) (q, g) = (f x p q, All-map xs f h g)

module _ {M F : Type 0} where
  select_updated-All :
      (P : PersistedOrder M F → Type 0) (status id : String)
      (rows : Dict String (PersistedOrder M F))
      → string_eq.beq status "PENDING" ≡ false
      → All P (select_status "PENDING" rows)
      → All P (select_status "PENDING" (update_status status id rows))
  unfolding select_status update_status
  select_updated-All P status id [] other h = tt
  select_updated-All P status id ((k, po) ∷ rows) other h =
      let rest =
        select_updated-All P status id rows other
          (All-tail P (string_eq.beq po.status "PENDING") po _ h) in
      elim (string_eq.beq k id)
        as (λ b.
          let row = if b then record po { status = status } else po in
          All P (
            if string_eq.beq row.status "PENDING"
            then row ∷ select_status "PENDING" (update_status status id rows)
            else select_status "PENDING" (update_status status id rows))) [
              | true ↦ rw (other) rest
              | false ↦ All-head P (string_eq.beq po.status "PENDING") po _ _ h rest
            ]

  -- The order of the row is one of the list.
  abbrev is_among : List (PersistedOrder M F) → PersistedOrder M F → Bool
  is_among [] po = false
  is_among (p ∷ ps) po = string_eq.beq po.client_order_id p.client_order_id || is_among ps po

module _ {M F : Type 0} (q : String → Option (OrderStatusResult F)) where
  -- A pending order that the adapter knows is still to be reconciled.
  abbrev IsLeft : List (PersistedOrder M F) → PersistedOrder M F → Type 0
  IsLeft ps po = is_known (q po.client_order_id) && not (is_among ps po) ≡ false

  abbrev AreLeft : List (PersistedOrder M F) → OrderStore M F → Type 0
  AreLeft ps s = IsKeyed s.orders × All (IsLeft ps) (fetch_pending s)

  -- A mark of the first order of the list.
  mark-AreLeft :
      (status : String) (p : PersistedOrder M F) (ps : List (PersistedOrder M F))
      (s : OrderStore M F)
      → string_eq.beq status "PENDING" ≡ false
      → AreLeft (p ∷ ps) s
      → AreLeft ps (record s { orders = update_status status p.client_order_id s.orders })
  unfolding fetch_pending
  mark-AreLeft status p ps s other (keyed, left) = (
    update_status-IsKeyed status p.client_order_id s.orders keyed,
    All-map _ (λ po l o. ground (arith, l, o))
        (select_updated-All (IsLeft (p ∷ ps)) status p.client_order_id s.orders other left)
        (select_updated status "PENDING" p.client_order_id s.orders other keyed),
  )

  -- An order that the adapter does not know.
  skip-AreLeft :
      (p : PersistedOrder M F) (ps : List (PersistedOrder M F)) (s : OrderStore M F)
      → is_known (q p.client_order_id) ≡ false
      → AreLeft (p ∷ ps) s
      → AreLeft ps s
  skip-AreLeft p ps s unknown (keyed, left) = (
    keyed,
    All-map _
        (λ po l _.
          ground (arith, l, unknown, string_eq.beq_iff po.client_order_id p.client_order_id))
        left left,
  )

  among_self : (ps : List (PersistedOrder M F)) → All (λ po. is_among ps po ≡ true) ps
  among_self [] = tt
  among_self (p ∷ ps) = (
    ground (arith, string_eq.beq_iff p.client_order_id p.client_order_id),
    All-map ps (λ po a _. ground (arith, a)) (among_self ps) (among_self ps),
  )

  pending_of-AreLeft :
      (o : Option (OrderStore M F))
      → Holds (λ s. IsKeyed s.orders) o
      → Holds (AreLeft (pending_of o)) o
  pending_of-AreLeft none h = tt
  pending_of-AreLeft (some s) h =
      let listed = among_self (fetch_pending s) in
      (h, All-map (fetch_pending s) (λ po a _. ground (arith, a)) listed listed)

  -- The rows are keyed, and the adapter knows no order that is pending.
  abbrev pub IsReconciled : OrderStore M F → Type 0
  IsReconciled s =
      IsKeyed s.orders × All (λ po. is_known (q po.client_order_id) ≡ false) (fetch_pending s)

module _ {S M F : Type 0} ⦃fl : Float F⦄ (q : String → Option (OrderStatusResult F)) where
  reconcile_with-AreLeft :
      (p : PersistedOrder M F) (ps : List (PersistedOrder M F)) (o : Option (OrderStatusResult F))
      (e : ExecutionEngine S M F)
      → o ≡ q p.client_order_id
      → Holds (AreLeft q (p ∷ ps)) e.store
      → Holds (AreLeft q ps) (reconcile_with p o e).store
  unfolding status_result_to_execution mark_confirmed mark_duplicate
  reconcile_with-AreLeft p ps none e known h =
      Holds-weaken e.store (λ s. skip-AreLeft q p ps s (ap is_known (sym known))) h
  reconcile_with-AreLeft p ps (some st) e known h =
      let id = p.client_order_id in
      if_intro {A = ExecutionEngine S M F} (λ r. Holds (AreLeft q ps) r.store)
        (is_settled st.status)
        (λ _.
          Holds-map (AreLeft q ps) (mark_confirmed id) e.store
            (λ s. mark-AreLeft q "CONFIRMED" p ps s refl) h)
        (λ unsettled.
          if_intro {A = ExecutionEngine S M F} (λ r. Holds (AreLeft q ps) r.store)
            (is_duplicate st.status)
            (λ _.
              Holds-map (AreLeft q ps) (mark_duplicate id) e.store
                (λ s. mark-AreLeft q "DUPLICATE" p ps s refl) h)
            (λ other.
              let unknown : is_known (some st) ≡ false = ground (arith, unsettled, other) in
              Holds-weaken e.store (λ s. skip-AreLeft q p ps s (ap is_known (sym known) ∙ unknown))
                h))

module _ {S M F : Type 0} ⦃fl : Float F⦄ where
  reconcile_with-adapter_state :
      (p : PersistedOrder M F) (o : Option (OrderStatusResult F)) (e : ExecutionEngine S M F)
      → (reconcile_with p o e).adapter_state ≡ e.adapter_state
  unfolding status_result_to_execution
  reconcile_with-adapter_state p none e = refl
  reconcile_with-adapter_state p (some st) e =
      if_intro {A = ExecutionEngine S M F} (λ r. r.adapter_state ≡ e.adapter_state)
        (is_settled st.status) (λ _. refl)
        (λ _.
          if_intro {A = ExecutionEngine S M F} (λ r. r.adapter_state ≡ e.adapter_state)
            (is_duplicate st.status) (λ _. refl) (λ _. refl))

module _ {S F : Type 0} (adapter : Adapter S F) where
  -- What the adapter answers in a state.
  abbrev pub answers : S → String → Option (OrderStatusResult F)
  answers s id = (adapter.query_status id s).0

  -- The question does not change the adapter.
  abbrev IsAsked : S → Type 0
  IsAsked s = (id : String) → (adapter.query_status id s).1 ≡ s

module _ {S M F : Type 0} ⦃fl : Float F⦄ (adapter : Adapter S F) where
  reconcile_all-AreLeft :
      (s : S)
      → IsAsked adapter s
      → (ps : List (PersistedOrder M F)) (e : ExecutionEngine S M F) → e.adapter_state ≡ s
      → Holds (AreLeft (answers adapter s) ps) e.store
      → Holds (AreLeft (answers adapter s) []) (reconcile_all adapter ps e).store
  reconcile_all-AreLeft s asked [] e same h = h
  reconcile_all-AreLeft s asked (p ∷ ps) e same h =
      let (answer, next) = query adapter p.client_order_id e in
      reconcile_all-AreLeft s asked ps (reconcile adapter p e)
        (reconcile_with-adapter_state p answer next
          ∙ ap (λ x. (adapter.query_status p.client_order_id x).1) same
          ∙ asked p.client_order_id)
        (reconcile_with-AreLeft (answers adapter s) p ps answer next
          (ap (λ x. answers adapter x p.client_order_id) same) h)

  -- After `reconcile_pending_orders` on a store whose rows are keyed by their identifiers, each order that
  -- is still pending is one that the adapter, in the state it has, reports neither as settled nor as a
  -- duplicate, if to ask it for an order does not change that state.
  pub reconcile_pending_orders-IsReconciled :
      (e : ExecutionEngine S M F)
      → ((id : String) → (adapter.query_status id e.adapter_state).1 ≡ e.adapter_state)
      → Holds (λ s. IsKeyed s.orders) e.store
      → Holds
          (IsReconciled (answers adapter e.adapter_state))
          (reconcile_pending_orders adapter e).store
  unfolding reconcile_pending_orders
  reconcile_pending_orders-IsReconciled e asked keyed =
      let q = answers adapter e.adapter_state in
      let done =
        reconcile_all-AreLeft e.adapter_state asked (pending_of e.store) e refl
          (pending_of-AreLeft q e.store keyed) in
      Holds-weaken (reconcile_all adapter (pending_of e.store) e).store
        (λ s h. (h.0, All-map _ (λ po l _. ground (arith, l)) h.1 h.1)) done
